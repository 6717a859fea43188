-- ===== src/Server/Auth/Closed.antt =====
-- UserAuthen behind the end of the client's stream.
use nex_file.Base.{
  ℕ, suc, ◌+◌, ◌≤◌, ◌≡◌, refl, false, Bytes, codes, c_str, List, [], ◌∷◌, ◌++◌, length, replicate,
  le→ltb, lt→leb, none, arith,
}
use nex_file.Base.Io.{ok}
use nex_file.Protocol.Wire.{train_bytes, int_bytes, int_from, u32_bytes, u32_of, int_of, pattern_of}
use nex_file.Net.{Conn, RecvAct, SendAct, accept, send_failing, send}
use nex_file.Net.Schedule.{Delivers}
use nex_file.Server.State.{Server}
use nex_file.Server.Transfer.Closed.{recvn_closed, recvn_nothing}
use nex_file.Server.Train.{read_train, copy_out}
use nex_file.Server.Auth.{
  Shadow, result_user_query_fail, result_io_error, authenticate_user, compare_hash, receive_text,
  answer, refuse, send_reply, user_authen,
}
use nex_file.Server.Auth.Reply.{send_reply-whole}

-- The results of recvn are ignored, so the end of the stream reads as an empty text.
receive_text_closed :
    (k room : ℕ) (c : Conn)
    → c.incoming ≡ []
    → Delivers (k + 1) c.recvs
    → (acts : List RecvAct) × Delivers k acts
      × (receive_text (suc room) c ≡ ok [] (record c { incoming = []; recvs = acts }))
unfolding receive_text read_train copy_out int_bytes int_from u32_bytes u32_of int_of pattern_of
    c_str
receive_text_closed k room c e d =
    let (acts, left, closed) = recvn_closed k 4 c (omega arith) e d in
    let nothing = recvn_nothing (record c { incoming = []; recvs = acts }) in
    let stored = le→ltb (suc (length (replicate {A = ℕ} room 0))) 0 (omega arith) in
    let ended = lt→leb (suc room) 0 (omega arith) in
    (acts, left, rw closed (rw nothing (rw (stored, ended) refl)))

-- The name and the hash that a round reads then are both empty.
user_authen_empty :
    {F : Type 0} (shadow : Shadow) (k : ℕ) (s : Server F)
    → shadow [] ≡ none
    → s.conn.incoming ≡ []
    → Delivers (k + 2) s.conn.recvs
    → (recvs : List RecvAct) × Delivers k recvs
      × (user_authen shadow s
          ≡ refuse result_user_query_fail
              (record s { conn = record s.conn { incoming = []; recvs = recvs } }))
unfolding user_authen authenticate_user compare_hash answer
user_authen_empty shadow k s no_empty e d =
    let (acts, left, name) =
      receive_text_closed (k + 1) 63 s.conn e
        (record { clean = d.clean; enough = omega (arith, d.enough) }) in
    let (acts', left', hash) =
      receive_text_closed k 127 (record s.conn { incoming = []; recvs = acts }) refl left in
    (acts', left', rw name (rw hash (rw no_empty refl)))

send_reply-fails :
    (text : Bytes) (acts : List SendAct) (c : Conn)
    → c.sends ≡ send_failing ∷ acts
    → send_reply text c ≡ ok false (record c { sends = acts })
unfolding send_reply send
send_reply-fails text acts c e = rw e refl

module _ {F : Type 0} (shadow : Shadow) (k : ℕ) (acts : List SendAct) (s : Server F) where
  -- Behind the end of the stream, a round answers AUTH_FAIL while its call of send is taken.
  pub user_authen_answers :
      (i : ℕ)
      → shadow [] ≡ none
      → s.conn.incoming ≡ []
      → Delivers (k + 2) s.conn.recvs
      → s.conn.sends ≡ accept i ∷ acts
      → 13 ≤ suc i
      → (recvs : List RecvAct) × Delivers k recvs
        × (user_authen shadow s
            ≡ ok result_user_query_fail (record s {
              conn = record {
                incoming = [];
                recvs = recvs;
                outgoing = s.conn.outgoing ++ train_bytes (codes "AUTH_FAIL");
                sends = acts;
              };
            }))
  unfolding refuse
  user_authen_answers i no_empty e d one room =
      let (recvs, left, empty) = user_authen_empty shadow k s no_empty e d in
      let c : Conn = record s.conn { incoming = []; recvs = recvs } in
      (recvs, left, rw empty (rw (send_reply-whole (codes "AUTH_FAIL") i acts c one room) refl))

  -- When its call of send fails, the round is an I/O error.
  pub user_authen_gives_up :
      shadow [] ≡ none
      → s.conn.incoming ≡ []
      → Delivers (k + 2) s.conn.recvs
      → s.conn.sends ≡ send_failing ∷ acts
      → (recvs : List RecvAct) × Delivers k recvs
        × (user_authen shadow s
            ≡ ok result_io_error
                (record s { conn = record s.conn { incoming = []; recvs = recvs; sends = acts } }))
  unfolding refuse
  user_authen_gives_up no_empty e d one =
      let (recvs, left, empty) = user_authen_empty shadow k s no_empty e d in
      let c : Conn = record s.conn { incoming = []; recvs = recvs } in
      (recvs, left, rw empty (rw (send_reply-fails (codes "AUTH_FAIL") acts c one) refl))
