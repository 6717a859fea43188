-- ===== src/Server/Command/Silent.antt =====
-- The commands that send no reply.
use nex_file.Base.{ℕ, ◌≢◌, refl, ℤ, Bytes, ◌==◌, ne→==}
use nex_file.Base.Io.{Io}
use nex_file.Base.Keeps.{Keeps, Keeps-bind, Keeps-if}
use nex_file.Protocol.{
  PacketCmd, to_code, req_get, req_mkdir, req_cd, req_ls, req_rm, req_put, req_pwd,
}
use nex_file.Server.State.{Server}
use nex_file.Server.Files.{Os, string_in}
use nex_file.Server.Command.{
  cmd_parse, change_dir, list_dir, print_working_dir, remove_file, handled,
}
use nex_file.Server.Files.Quiet.{seen, Keeps-string_in, put_file-seen}

module _ {F : Type 0} (os : Os F) where
  handled-seen : (m : Io (Server F) ℤ) → Keeps seen m → Keeps seen (handled os m)
  handled-seen m h = Keeps-bind seen m _ h λ r. λ s. refl

  list_dir-seen : (cmd : PacketCmd) → Keeps seen (list_dir os cmd)
  unfolding list_dir
  list_dir-seen cmd =
      Keeps-bind seen (string_in cmd.payload) _ (Keeps-string_in seen cmd.payload) λ name. λ s. refl

  remove_file-seen : (cmd : PacketCmd) → Keeps seen (remove_file os cmd)
  unfolding remove_file
  remove_file-seen cmd =
      Keeps-bind seen (string_in cmd.payload) _ (Keeps-string_in seen cmd.payload) λ name. λ s. refl

  -- Every packet but one for mkdir or get, also one with an unknown code, is handled without a byte
  -- to the client: if cmdParse returns, nothing was sent, and the global path is as before.
  pub cmd_parse-seen :
      (name_buf size_buf : Bytes) (cmd : PacketCmd)
      → cmd.cmd_code ≢ to_code req_mkdir
      → cmd.cmd_code ≢ to_code req_get
      → Keeps seen (cmd_parse os name_buf size_buf cmd)
  unfolding cmd_parse
  cmd_parse-seen name_buf size_buf cmd not_mkdir not_get =
      Keeps-if seen (c == to_code req_cd) _ _ (handled-seen (change_dir os) (λ s. refl)) (
        Keeps-if seen (c == to_code req_ls) _ _ (handled-seen _ (list_dir-seen cmd)) (
          rw (ne→== c (to_code req_mkdir) not_mkdir) (
            Keeps-if seen (c == to_code req_rm) _ _ (handled-seen _ (remove_file-seen cmd)) (
              Keeps-if seen (c == to_code req_put) _ _
                (handled-seen _ (put_file-seen os name_buf size_buf))
                (rw (ne→== c (to_code req_get) not_get) (
                  Keeps-if seen (c == to_code req_pwd) _ _
                    (handled-seen (print_working_dir os) (λ s. refl)) (λ s. refl)))))))
    where
      c : ℕ
      c = cmd.cmd_code
