-- ===== src/Client/CmdOpt.antt =====
-- NexFile/client/cmdOpt.c: an input line is cut into a command packet and verified. A line is the
-- C string in the buffer; a packet is the caller's, whatever it held before.
pub mod Check
pub mod Cut
pub mod Packet
use nex_file.Base.{
  ℕ, ℤ, pos, minus_one, eq_ℤ, is_nonpos, Bool, not, ◌&&◌, ◌||◌, Bytes, List, [], ◌∷◌, ◌++◌, length,
  overwrite, c_str, ltb, leb, ◌==◌, if◌then◌else◌, Option, none, some,
}
use nex_file.Protocol.{PacketCmd, data_size, to_code, req_invalid, req_pwd, str_to_cmdcode}

-- The delimiters " \t\r\n" of cmdCut.
unfoldable pub is_blank : ℕ → Bool
is_blank c = c == b' ' || c == b'\t' || c == b'\r' || c == b'\n'

-- The bytes up to the next delimiter, and those behind that delimiter.
unfoldable pub token_end : Bytes → Bytes × Bytes
token_end [] = ([], [])
token_end (c ∷ cs) = let (t, rest) = token_end cs in if is_blank c then ([], cs) else (c ∷ t, rest)

-- `strtok_r(s, " \t\r\n", &saveptr)`: the token and the new `saveptr`, or `none` for NULL.
unfoldable pub strtok : Bytes → Option (Bytes × Bytes)
strtok [] = none
strtok (c ∷ cs) =
    let (t, rest) = token_end cs in if is_blank c then strtok cs else some (c ∷ t, rest)

-- The packet after the initialisation, and after the rejection of further arguments: only
-- `data_[0]` is written.
abbrev pub cleared : PacketCmd → PacketCmd
cleared p = record p {
  cmd_code = to_code req_invalid;
  arg_flag = 0;
  len = pos 0;
  payload = overwrite (0 ∷ []) p.payload;
}

-- cmdCut, when there is an argument `a`; `more` is what the last `strtok_r` returns.
cut_argument : PacketCmd → Bytes → Option (Bytes × Bytes) → PacketCmd × ℤ
cut_argument p a more =
    let taken : PacketCmd = record p {
      payload = overwrite (a ++ 0 ∷ []) p.payload;
      arg_flag = 1;
      len = pos (length a);
    } in
    if leb data_size (length a)
    then (record p { cmd_code = to_code req_invalid }, minus_one)
    else elim more [ none ↦ (taken, pos 0) | some _ ↦ (cleared taken, minus_one) ]

cut_rest : PacketCmd → Option (Bytes × Bytes) → PacketCmd × ℤ
cut_rest p none = (p, pos 0)
cut_rest p (some (a, rest)) = cut_argument p a (strtok rest)

cut_command : PacketCmd → Option (Bytes × Bytes) → PacketCmd × ℤ
cut_command p none = (p, minus_one)
cut_command p (some (t, rest)) =
    cut_rest (record p { cmd_code = to_code (str_to_cmdcode (some t)) }) (strtok rest)

-- cmdCut, on a line and a packet that are no null pointers.
unfoldable pub cut : Bytes → PacketCmd → PacketCmd × ℤ
unfolding cut_command cut_rest cut_argument
cut line p = cut_command (cleared p) (strtok line)

-- cmdCut. A null pointer is `none`: then nothing is written.
unfoldable pub cmd_cut : Option Bytes → Option PacketCmd → Option PacketCmd × ℤ
cmd_cut none p = (p, minus_one)
cmd_cut (some line) none = (none, minus_one)
cmd_cut (some line) (some p) = let (q, ret) = cut line p in (some q, ret)

-- cmdVeri. Its first range test reads `argFlag_`, as the source does.
unfoldable pub cmd_veri : PacketCmd → ℤ
cmd_veri p =
    if p.cmd_code == to_code req_invalid
    then minus_one
    else if leb 4 p.arg_flag && leb p.arg_flag 7
    then (if not (p.arg_flag == 1) || is_nonpos p.len || length (c_str p.payload) == 0
        then minus_one
        else pos 0)
    else if p.cmd_code == to_code req_pwd
    then (if not (p.arg_flag == 0)
          || not (eq_ℤ p.len (pos 0))
          || not (length (c_str p.payload) == 0)
        then minus_one
        else pos 0)
    else pos 0

-- cmdCheck, on a line and a packet that are no null pointers.
unfoldable pub check : Bytes → PacketCmd → PacketCmd × ℤ
check line p =
    let (q, ret) = cut line p in if not (eq_ℤ ret (pos 0)) then (q, ret) else (q, cmd_veri q)

-- cmdCheck. With a null packet cmdCut fails, so cmdVeri is not called.
unfoldable pub cmd_check : Option Bytes → Option PacketCmd → Option PacketCmd × ℤ
cmd_check none p = (p, minus_one)
cmd_check (some line) none = (none, minus_one)
cmd_check (some line) (some p) = let (q, ret) = check line p in (some q, ret)
