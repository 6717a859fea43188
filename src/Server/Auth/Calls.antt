-- ===== src/Server/Auth/Calls.antt =====
-- UserAuthen makes at least one call of `recv`, or blocks.
use nex_file.Base.{
  ℕ, ◌+◌, ◌≡◌, refl, ℤ, pos_part, eq_ℤ, ◌||◌, Bytes, codes, List, [], ◌∷◌, length, leb, replicate,
  if◌then◌else◌, some, arith,
}
use nex_file.Base.Io.{Io, Run, ok, blocked, undefined, exited, pure, ◌>>=◌}
use nex_file.Base.Lowers.{
  Within, Lowers, Below, Drops, Lowers-bind, Drops-bind, Lowers-if, Lowers-of_Drops,
}
use nex_file.Protocol.Wire.{train_bytes}
use nex_file.Net.{SendAct, accept, send_interrupted, send_failing, Conn, send}
use nex_file.Server.State.{Server, with_conn, on_conn, get_path, set_path}
use nex_file.Server.Transfer.Calls.{calls}
use nex_file.Server.Train.{read_train, copy_out, train_zero}
use nex_file.Server.Train.Calls.{read_train-Drops, copy_out-Lowers}
use nex_file.Server.Auth.{
  Shadow, result_ok, result_fail, result_user_query_fail, result_io_error, authenticate_user,
  receive_text, send_reply, answer, user_authen, max_path_len, enter_home, welcome, refuse,
}

receive_text-Drops : (room : ℕ) → Drops calls (receive_text room)
unfolding receive_text
receive_text-Drops room =
    Drops-bind calls (read_train train_zero) _ (read_train-Drops train_zero) λ t.
      Lowers-bind calls (copy_out t (replicate room 0)) _ (copy_out-Lowers t (replicate room 0))
        λ buf. Lowers-if calls (leb room (pos_part t.len)) _ _ (λ c. tt) (λ c. omega arith)

send-Lowers : (bs : Bytes) → Lowers calls (send bs)
unfolding send
send-Lowers bs c = go c.sends refl
  where
    go : (acts : List SendAct) → c.sends ≡ acts → Within calls (calls c) (send bs c)
    go [] e = rw e tt
    go (accept k ∷ acts) e = rw e (omega arith)
    go (send_interrupted ∷ acts) e = rw e (omega arith)
    go (send_failing ∷ acts) e = rw e (omega arith)

send_reply-Lowers : (text : Bytes) → Lowers calls (send_reply text)
unfolding send_reply
send_reply-Lowers text =
    Lowers-bind calls (send (train_bytes text)) _ (send-Lowers (train_bytes text))
      λ r. λ c. omega arith

-- The same for a server thread.
abbrev pub server_calls : {F : Type 0} → Server F → ℕ
server_calls s = calls s.conn

module _ {F : Type 0} where
  with_conn-Within :
      {A : Type 0} (n : ℕ) (s : Server F) (x : Run Conn A)
      → Within calls n x
      → Within server_calls n (with_conn s x)
  with_conn-Within n s (ok a c) h = h
  with_conn-Within n s blocked h = tt
  with_conn-Within n s undefined h = tt
  with_conn-Within n s exited h = tt

  with_conn-Below :
      {A : Type 0} (n : ℕ) (s : Server F) (x : Run Conn A)
      → Below calls n x
      → Below server_calls n (with_conn s x)
  with_conn-Below n s (ok a c) h = h
  with_conn-Below n s blocked h = tt
  with_conn-Below n s undefined h = tt
  with_conn-Below n s exited h = tt

  on_conn-Lowers :
      {A : Type 0} (m : Io Conn A) → Lowers calls m → Lowers server_calls (on_conn {F = F} m)
  on_conn-Lowers m h s = with_conn-Within (calls s.conn) s (m s.conn) (h s.conn)

  on_conn-Drops :
      {A : Type 0} (m : Io Conn A) → Drops calls m → Drops server_calls (on_conn {F = F} m)
  on_conn-Drops m h s = with_conn-Below (calls s.conn) s (m s.conn) (h s.conn)

  welcome-Lowers : (u path : Bytes) (auth : ℤ) → Lowers server_calls (welcome {F = F} u path auth)
  unfolding welcome
  welcome-Lowers u path auth =
      Lowers-if server_calls (leb max_path_len (length path + 1 + length u)) (pure result_io_error)
        (set_path (enter_home path u) >>= reply) (λ s. omega arith)
        (Lowers-bind server_calls (set_path (enter_home path u)) reply (λ s. omega arith)
          λ _.
            Lowers-bind server_calls (on_conn (send_reply _)) _
              (on_conn-Lowers (send_reply _) (send_reply-Lowers _)) λ sent. λ s. omega arith)
    where
      reply : Unit {0} → Io (Server F) ℤ
      reply _ = do
        sent ← on_conn (send_reply (codes "AUTH_RESULT_OK"))
        pure (if sent then auth else result_io_error)

  refuse-Lowers : (auth : ℤ) → Lowers server_calls (refuse {F = F} auth)
  unfolding refuse
  refuse-Lowers auth =
      Lowers-bind server_calls (on_conn (send_reply _)) _
        (on_conn-Lowers (send_reply _) (send_reply-Lowers _)) λ sent. λ s. omega arith

  answer-Lowers : (u : Bytes) (auth : ℤ) → Lowers server_calls (answer {F = F} u auth)
  unfolding answer
  answer-Lowers u auth =
      Lowers-if server_calls (eq_ℤ auth result_ok) _ _
        (Lowers-bind server_calls get_path _ (λ s. omega arith) λ path. welcome-Lowers u path auth)
        (Lowers-if server_calls (eq_ℤ auth result_user_query_fail || eq_ℤ auth result_fail) _ _
          (refuse-Lowers auth) (λ s. omega arith))

  pub user_authen-Drops : (shadow : Shadow) → Drops server_calls (user_authen {F = F} shadow)
  unfolding user_authen
  user_authen-Drops shadow =
      Drops-bind server_calls (on_conn (receive_text 64)) _
        (on_conn-Drops _ (receive_text-Drops 64))
        λ u.
          Lowers-bind server_calls (on_conn (receive_text 128)) _
            (on_conn-Lowers _ (Lowers-of_Drops calls _ (receive_text-Drops 128)))
            λ h. answer-Lowers u (authenticate_user shadow (some u) (some h))
