-- ===== src/Server/Session.antt =====
-- recvCmd of NexFile/server/recvCmd.c, and handle_authen_event and handleClient of
-- NexFile/server/clientHandle.c: what a worker does with one client.
pub mod Closed
pub mod Ends
pub mod Full
pub mod Login
pub mod Served
pub mod Stream
pub mod Whole
use nex_file.Base.{
  ℕ, zero, suc, ℤ, pos, minus_one, is_neg, eq_ℤ, Bool, true, false, not, ◌||◌, Bytes, overwrite,
  List, [], ◌∷◌, ◌==◌, if◌then◌else◌,
}
use nex_file.Base.Io.{Io, Run, blocked, pure, ◌>>=◌, ◌>>◌}
use nex_file.Protocol.{PacketCmd}
use nex_file.Protocol.Packet.{packet_size, packet_of}
use nex_file.Net.{Conn}
use nex_file.Server.Transfer.{recvn}
use nex_file.Server.State.{Server, on_conn}
use nex_file.Server.Files.{Os, string_in}
use nex_file.Server.Command.{cmd_parse}
use nex_file.Server.Auth.{Shadow, result_ok, result_fail, result_user_query_fail, user_authen}

-- What the uninitialised variables of a call hold: `cmd` of handleClient, and `filename` and
-- `filesize` of PutFile.
pub record Memory : Type 0 where
  pub cmd : Bytes
  pub name_buf : Bytes
  pub size_buf : Bytes

-- recvCmd: the result, and the packet that is then in `cmd`.
unfoldable pub recv_cmd : (cmd : Bytes) → Io Conn (ℤ × PacketCmd)
recv_cmd cmd = do
  (ret, bs) ← recvn (pos packet_size)
  pure (
    if is_neg ret then minus_one else if eq_ℤ ret (pos 0) then pos 0 else ret,
    packet_of (overwrite bs cmd),
  )

-- What a call of epoll_wait gives: an error, EINTR, or the ready descriptors, each with the memory
-- of the calls that handle it.
pub data Waited : Type 0 where
  wait_failing : Waited
  wait_interrupted : Waited
  ready : List (ℕ × Memory) → Waited

-- `printf` of a received packet, which reads the string in `data_` if there is an argument.
print_packet : {F : Type 0} → PacketCmd → Io (Server F) (Unit {0})
print_packet cmd = if cmd.arg_flag == 1 then (do string_in cmd.payload; pure tt) else pure tt

module _ {F : Type 0} (os : Os F) (shadow : Shadow) where
  -- What handle_authen_event does with the result of UserAuthen: it returns, or goes on.
  unfoldable pub verdict : ℤ → Io (Server F) ℤ → Io (Server F) ℤ
  verdict auth_ret again =
      if eq_ℤ auth_ret result_ok
      then pure (pos 0)
      else if eq_ℤ auth_ret result_fail
      then again
      else if eq_ℤ auth_ret result_user_query_fail
      then again
      else pure minus_one

  -- handle_authen_event, with fuel for its rounds: without fuel it counts as blocked.
  unfoldable pub handle_authen_event : (fuel : ℕ) → Io (Server F) ℤ
  unfolding verdict
  handle_authen_event zero = λ s. blocked
  handle_authen_event (suc fuel) = do
    auth_ret ← user_authen shadow
    verdict auth_ret (handle_authen_event fuel)

  -- One ready descriptor that is the client's: true if the connection is to be closed.
  unfoldable pub serve_ready : Memory → Io (Server F) Bool
  unfolding print_packet
  serve_ready m = do
    (ret, cmd) ← on_conn (recv_cmd m.cmd)
    if eq_ℤ ret (pos 0) || is_neg ret
        then pure true
        else do print_packet cmd; cmd_parse os m.name_buf m.size_buf cmd; pure false

  -- The loop over the ready descriptors, up to `break`.
  unfoldable pub serve_set : (client_fd : ℕ) → List (ℕ × Memory) → Io (Server F) Bool
  serve_set client_fd [] = pure false
  serve_set client_fd ((fd, m) ∷ rest) =
      let later = serve_set client_fd rest in
      if not (fd == client_fd)
      then later
      else do closing ← serve_ready m; if closing then pure true else later

  -- The loop around epoll_wait; it ends in front of the two calls of `close`.
  unfoldable pub serve_loop : (client_fd : ℕ) → List Waited → Io (Server F) (Unit {0})
  unfolding serve_set
  serve_loop client_fd [] = λ s. blocked
  serve_loop client_fd (wait_failing ∷ waits) = pure tt
  serve_loop client_fd (wait_interrupted ∷ waits) = serve_loop client_fd waits
  serve_loop client_fd (ready fds ∷ waits) =
      let later = serve_loop client_fd waits in
      do closing ← serve_set client_fd fds; if closing then pure tt else later

  -- handleClient; `made` and `added` say whether epoll_create and epollADD succeed.
  unfoldable pub handle_client :
      (fuel client_fd : ℕ) → (made added : Bool) → List Waited → Io (Server F) (Unit {0})
  handle_client fuel client_fd made added waits = do
    ret ← handle_authen_event fuel
    if not (eq_ℤ ret (pos 0))
        then pure tt
        else if not made || not added
        then pure tt
        else serve_loop client_fd waits
