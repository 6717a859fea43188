-- ===== src/Client/CmdOpt/Packet.antt =====
-- The packet that cmdCheck fills.
use nex_file.Base.{
  ◌≡◌, ◌≢◌, ◌<◌, refl, sym, ◌∙◌, ap, pos, true, false, Bool-cases, inl, inr, Bytes, List, [], ◌∷◌,
  ◌++◌, length, length-append, length-overwrite, overwrite, ltb, ltb→lt, lt→ltb, c_str,
  c_str-append, IsStr, All, Option, some, arith, append_assoc, append-nil, subst, codes,
}
use nex_file.Protocol.{
  PacketCmd, data_size, to_code, CommandCode, req_invalid, req_cd, req_ls, req_pwd, req_rm, req_put,
  req_get, req_mkdir,
}
use nex_file.Protocol.Names.{name_of, str_to_cmdcode-name_of}
use nex_file.Client.CmdOpt.{is_blank, cut, check}
use nex_file.Client.CmdOpt.Cut.{words, ends_word, prepend, cut_words, cut-words}
use nex_file.Client.CmdOpt.Check.{command, check_iff}

-- `data_` has its 1024 bytes.
abbrev pub IsPacket : PacketCmd → Type 0
IsPacket p = length p.payload ≡ data_size

check_packet : (line : Bytes) (p : PacketCmd) → (check line p).0 ≡ (cut line p).0
unfolding check
check_packet line p = ground arith

length_cleared :
    (buf : Bytes) → length buf ≡ data_size → length (overwrite (0 ∷ []) buf) ≡ data_size
length_cleared buf h = omega (arith, length-overwrite {0} (0 ∷ []) buf)

-- `memcpy(data_, a, len + 1)` stays inside `data_`.
length_filled :
    (a buf : Bytes)
    → length a < data_size
    → length buf ≡ data_size
    → length (overwrite (a ++ 0 ∷ []) (overwrite (0 ∷ []) buf)) ≡ data_size
length_filled a buf short h =
    let e = length-append a (0 ∷ []) in
    let c = length_cleared buf h in
    length-overwrite (a ++ 0 ∷ []) (overwrite (0 ∷ []) buf) (omega arith) ∙ c

cut_words-IsPacket : (p : PacketCmd) (ws : List Bytes) → IsPacket p → IsPacket (cut_words p ws).0
unfolding cut_words
cut_words-IsPacket p [] h = length_cleared p.payload h
cut_words-IsPacket p (t ∷ []) h = length_cleared p.payload h
cut_words-IsPacket p (t ∷ a ∷ []) h = elim (Bool-cases (ltb (length a) data_size)) [
  | inl short ↦ rw short (length_filled a p.payload (ltb→lt (length a) data_size short) h)
  | inr long ↦ rw long (length_cleared p.payload h)
]
cut_words-IsPacket p (t ∷ a ∷ b ∷ ws) h = elim (Bool-cases (ltb (length a) data_size)) [
  | inl short ↦
      rw short (length_cleared _ (length_filled a p.payload (ltb→lt (length a) data_size short) h))
  | inr long ↦ rw long (length_cleared p.payload h)
]

-- Whatever the line, cmdCheck writes only inside the 1024 bytes of `data_`.
pub check-IsPacket : (line : Bytes) (p : PacketCmd) → IsPacket p → IsPacket (check line p).0
check-IsPacket line p h =
    rw (check_packet line p, cut-words line p) (cut_words-IsPacket p (words line) h)

words_nil : words [] ≡ []
unfolding words
words_nil = refl

words_space : (a : Bytes) → words (b' ' ∷ a) ≡ words a
unfolding words is_blank
words_space a = refl

-- A run of bytes with no blank, and not empty.
abbrev pub IsWord : Bytes → Type 0
IsWord w = (w ≢ []) × All (λ c. is_blank c ≡ false) w

words-append :
    (w rest : Bytes) → IsWord w → ends_word rest ≡ true → words (w ++ rest) ≡ w ∷ words rest
unfolding words
words-append [] rest h e = absurd (h.0 refl)
words-append (c ∷ []) rest h e = rw (h.1.0, e)
words-append (c ∷ d ∷ w) rest h e =
    rw (h.1.0, h.1.1.0)
      (ap (prepend c) (rw h.1.1.0 at (words-append (d ∷ w) rest (λ x. cc, h.1.1) e)))

words_word : (w : Bytes) → IsWord w → words w ≡ w ∷ []
words_word w h = ap words (sym (append-nil w)) ∙ (words-append w [] h refl ∙ ap (◌∷◌ w) words_nil)

IsWord-of :
    {o : Option Bytes} {t : Bytes} (w : Bytes) → IsWord w → o ≡ some w → o ≡ some t → IsWord t
IsWord-of {t} w h e f = let q : w ≡ t = cc in subst IsWord q h

name_of-IsWord : (c : CommandCode) (t : Bytes) → name_of c ≡ some t → IsWord t
unfolding is_blank
name_of-IsWord req_invalid t e = cc
name_of-IsWord req_cd t e = IsWord-of (codes "cd") (λ x. cc, (refl, (refl, tt))) refl e
name_of-IsWord req_ls t e = IsWord-of (codes "ls") (λ x. cc, (refl, (refl, tt))) refl e
name_of-IsWord req_pwd t e = IsWord-of (codes "pwd") (λ x. cc, (refl, (refl, (refl, tt)))) refl e
name_of-IsWord req_rm t e = IsWord-of (codes "rm") (λ x. cc, (refl, (refl, tt))) refl e
name_of-IsWord req_put t e = IsWord-of (codes "put") (λ x. cc, (refl, (refl, (refl, tt)))) refl e
name_of-IsWord req_get t e = IsWord-of (codes "get") (λ x. cc, (refl, (refl, (refl, tt)))) refl e
name_of-IsWord req_mkdir t e =
    IsWord-of (codes "mkdir") (λ x. cc, (refl, (refl, (refl, (refl, (refl, tt)))))) refl e

-- The words of a typed command with one argument.
words-typed : (t a : Bytes) → IsWord t → IsWord a → words (t ++ b' ' ∷ a) ≡ t ∷ a ∷ []
words-typed t a ht ha =
    words-append t (b' ' ∷ a) ht (unfold is_blank in refl)
    ∙ ap (◌∷◌ t) (words_space a ∙ words_word a ha)

-- The packet of command `c` with argument `a`.
pub record Carries (c : CommandCode) (a : Bytes) (p : PacketCmd) : Type 0 where
  pub code : p.cmd_code ≡ to_code c
  pub flag : p.arg_flag ≡ 1
  pub size : p.len ≡ pos (length a)
  pub text : c_str p.payload ≡ a

cut_words-Carries :
    (p : PacketCmd) (c : CommandCode) (t a : Bytes)
    → command t ≡ c
    → IsStr a
    → length a < data_size
    → Carries c a (cut_words p (t ∷ a ∷ [])).0
unfolding cut_words
cut_words-Carries p c t a e str short = rw (lt→ltb (length a) data_size short) (record {
  code = ap to_code e;
  flag = refl;
  size = refl;
  text = rw append_assoc (c_str-append a _ str);
})

-- A command other than `pwd`, typed with one argument that fits `data_`, passes cmdCheck, and its
-- packet holds the command's code and the argument as a C string with its length.
pub check_typed :
    (c : CommandCode) (t a : Bytes) (p : PacketCmd)
    → c ≢ req_invalid
    → c ≢ req_pwd
    → name_of c ≡ some t
    → IsWord a
    → IsStr a
    → length a < data_size
    → ((check (t ++ b' ' ∷ a) p).1 ≡ pos 0) × Carries c a (check (t ++ b' ' ∷ a) p).0
check_typed c t a p known takes name word str short =
    let e : command t ≡ c = (str_to_cmdcode-name_of c t known).1 name in
    let ws = words-typed t a (name_of-IsWord c t name) word in
    (
      (check_iff (t ++ b' ' ∷ a) p).1 (rw (ws, e) (known, takes, short)),
      rw (check_packet (t ++ b' ' ∷ a) p, cut-words (t ++ b' ' ∷ a) p, ws)
          (cut_words-Carries p c t a e str short),
    )
