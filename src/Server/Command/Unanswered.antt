-- ===== src/Server/Command/Unanswered.antt =====
-- cd, ls and rm: what cmdParse does with them, which is not to reply.
use nex_file.Base.{◌<◌, ◌≡◌, refl, pos, Bytes, c_str, length, lt→leb, eq→==, ne→==, arith}
use nex_file.Base.Io.{ok}
use nex_file.Protocol.{
  PacketCmd, to_code, CommandCode, req_invalid, req_cd, req_ls, req_pwd, req_rm, req_put, req_get,
  req_mkdir,
}
use nex_file.Server.State.{Server}
use nex_file.Server.Files.{Os}
use nex_file.Server.Command.{cmd_parse, change_dir, list_dir, remove_file}

-- cd, ls and rm
abbrev pub IsSilent : CommandCode → Type 0
IsSilent req_cd = Unit
IsSilent req_ls = Unit
IsSilent req_rm = Unit
IsSilent _ = ⊥

-- What they do to the files: rm removes one.
abbrev pub files_after : {F : Type 0} → Os F → CommandCode → (name : Bytes) → F → F
files_after os req_rm name fs = (os.unlink name fs).1
files_after os _ name fs = fs

-- cmdParse on a packet for one of them with a string in data_: it returns 0, and what it changes is the
-- files alone.
pub cmd_parse-silent :
    {F : Type 0} (os : Os F) (c : CommandCode) (cmd : PacketCmd) (name_buf size_buf : Bytes)
    (s : Server F)
    → IsSilent c
    → cmd.cmd_code ≡ to_code c
    → length (c_str cmd.payload) < length cmd.payload
    → cmd_parse os name_buf size_buf cmd s
      ≡ ok (pos 0) (record s { files = files_after os c (c_str cmd.payload) s.files })
unfolding cmd_parse change_dir list_dir remove_file
cmd_parse-silent os req_cd cmd name_buf size_buf s h code ended =
    rw (eq→== cmd.cmd_code 1 code) refl
cmd_parse-silent os req_ls cmd name_buf size_buf s h code ended =
    rw
      (
        ne→== cmd.cmd_code 1 (omega (arith, code)),
        eq→== cmd.cmd_code 2 code,
        lt→leb (length cmd.payload) (length (c_str cmd.payload)) ended,
      )
      refl
cmd_parse-silent os req_rm cmd name_buf size_buf s h code ended =
    rw
      (
        ne→== cmd.cmd_code 1 (omega (arith, code)),
        ne→== cmd.cmd_code 2 (omega (arith, code)),
        ne→== cmd.cmd_code 7 (omega (arith, code)),
        eq→== cmd.cmd_code 4 code,
        lt→leb (length cmd.payload) (length (c_str cmd.payload)) ended,
      )
      refl
cmd_parse-silent os req_invalid cmd name_buf size_buf s h code ended = absurd h
cmd_parse-silent os req_pwd cmd name_buf size_buf s h code ended = absurd h
cmd_parse-silent os req_put cmd name_buf size_buf s h code ended = absurd h
cmd_parse-silent os req_get cmd name_buf size_buf s h code ended = absurd h
cmd_parse-silent os req_mkdir cmd name_buf size_buf s h code ended = absurd h
