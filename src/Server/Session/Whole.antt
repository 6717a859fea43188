-- ===== src/Server/Session/Whole.antt =====
-- A whole session of a worker with one client: a login, directories, the end.
use nex_file.Base.{
  ℕ, suc, ◌+◌, ◌*◌, ◌<◌, ◌≤◌, ◌≡◌, refl, sym, ◌∙◌, pos, true, Bytes, codes, IsStr, All, List, [],
  ◌∷◌, ◌++◌, append-nil, length, eq→==, some, arith,
}
use nex_file.Base.Io.{ok}
use nex_file.Protocol.Packet.{packet_size}
use nex_file.Protocol.Wire.{train_bytes}
use nex_file.Net.{RecvAct, SendAct, accept}
use nex_file.Net.Schedule.{Delivers, Accepts}
use nex_file.Server.State.{Server}
use nex_file.Server.Files.{Os}
use nex_file.Server.Transfer.Closed.{recvn_closed}
use nex_file.Server.Auth.{Shadow, result_ok, max_path_len, enter_home}
use nex_file.Server.Auth.Reply.{after_reply, user_authen-welcomes}
use nex_file.Server.Session.{
  Memory, ready, verdict, recv_cmd, serve_ready, serve_set, serve_loop, handle_authen_event,
  handle_client,
}
use nex_file.Server.Session.Stream.{
  Turn, IsMkdir, on_wire, waits_for, make_all, after_turns, serve_loop-mkdirs,
}

module _ {F : Type 0} (os : Os F) (shadow : Shadow) where
  -- The login of a known user with the right hash takes one round.
  logged_in :
      (f k i : ℕ) (u h rest : Bytes) (acts : List SendAct) (s : Server F)
      → shadow u ≡ some h
      → length u < 64
      → length h < 128
      → IsStr u
      → IsStr h
      → length s.client_path + 1 + length u < max_path_len
      → s.conn.incoming ≡ train_bytes u ++ (train_bytes h ++ rest)
      → Delivers (k + length h + 4 + length u + 4) s.conn.recvs
      → s.conn.sends ≡ accept i ∷ acts
      → 18 ≤ suc i
      → (recvs : List RecvAct) × Delivers k recvs
        × (handle_authen_event os shadow (suc f) s
            ≡ ok (pos 0) (
                after_reply
                  (record s { conn = record s.conn { incoming = rest; recvs = recvs } })
                  u
                  result_ok
                  acts))
  unfolding handle_authen_event verdict
  logged_in f k i u h rest acts s known su sh iu ih fits came d one room =
      let (recvs, left, whole) =
        user_authen-welcomes shadow k i u h rest acts s known su sh iu ih fits came d one room in
      (recvs, left, rw whole refl)

  -- At the end of the stream the connection is to be closed.
  left_by :
      (m : Memory) (s : Server F)
      → s.conn.incoming ≡ []
      → Delivers 1 s.conn.recvs
      → (recvs : List RecvAct) × (serve_ready os shadow m s
          ≡ ok true (record s { conn = record s.conn { incoming = []; recvs = recvs } }))
  unfolding serve_ready recv_cmd
  left_by m s e d =
      let (recvs, left, closed) = recvn_closed 0 packet_size s.conn (omega arith) e d in
      (recvs, rw closed refl)

  -- The loop over the results of epoll_wait: one for each turn, and one for the end.
  turns_served :
      (fd : ℕ) (m : Memory) (turns : List Turn) (s : Server F)
      → All (λ (turn : Turn). IsMkdir s.client_path turn.1) turns
      → s.conn.incoming ≡ on_wire turns
      → Delivers (1 + packet_size * length turns) s.conn.recvs
      → Accepts (46 * length turns) s.conn.sends
      → (recvs : List RecvAct) × (sends : List SendAct) × (serve_loop os shadow fd
            (waits_for fd turns (ready ((fd, m) ∷ []) ∷ []))
            s
          ≡ ok tt (after_turns os shadow fd s turns [] recvs sends))
  unfolding serve_loop serve_set
  turns_served fd m turns s h e d a =
      let (recvs, sends, left, served) =
        serve_loop-mkdirs os shadow fd 1 0 turns (ready ((fd, m) ∷ []) ∷ []) [] s h
          (e ∙ sym (append-nil (on_wire turns))) d
          (record { clean = a.clean; enough = omega (arith, a.enough) }) in
      let s₁ = after_turns os shadow fd s turns [] recvs sends in
      let (recvs', closed) = left_by m s₁ refl left in
      (recvs', sends, served ∙ rw (eq→== fd fd refl) (rw closed refl))

  -- A whole session. The client of a user of the shadow file, whose name has at most 63 bytes and
  -- fits behind the path, and whose hash has at most 127, neither with a NUL, sends the right hash,
  -- packets for mkdir, each with a string in data_ that fits behind the user's path, and closes. If
  -- epoll and the one send of the login's reply succeed, each result of epoll_wait reports the
  -- client's descriptor once until the end is read, and the schedules have no error but EINTR and
  -- enough calls: handleClient returns, with the path of this user, exactly the directories that
  -- were asked for, made in order, and the replies sent in this order behind AUTH_RESULT_OK.
  pub handle_client-session :
      (f fd i : ℕ) (u h : Bytes) (m : Memory) (turns : List Turn) (acts : List SendAct)
      (s : Server F)
      → shadow u ≡ some h
      → length u < 64
      → length h < 128
      → IsStr u
      → IsStr h
      → length s.client_path + 1 + length u < max_path_len
      → All (λ (turn : Turn). IsMkdir (enter_home s.client_path u) turn.1) turns
      → s.conn.incoming ≡ train_bytes u ++ (train_bytes h ++ on_wire turns)
      → Delivers (1 + packet_size * length turns + length h + 4 + length u + 4) s.conn.recvs
      → s.conn.sends ≡ accept i ∷ acts
      → 18 ≤ suc i
      → Accepts (46 * length turns) acts
      → (recvs : List RecvAct) × (sends : List SendAct) × (handle_client os shadow
            (suc f)
            fd
            true
            true
            (waits_for fd turns (ready ((fd, m) ∷ []) ∷ []))
            s
          ≡ ok tt (record {
            client_path = enter_home s.client_path u;
            files = (make_all os (enter_home s.client_path u) turns s.files).0;
            conn = record {
              incoming = [];
              recvs = recvs;
              outgoing =
                  (s.conn.outgoing ++ train_bytes (codes "AUTH_RESULT_OK"))
                  ++ (make_all os (enter_home s.client_path u) turns s.files).1;
              sends = sends;
            };
          }))
  unfolding handle_client
  handle_client-session f fd i u h m turns acts s known su sh iu ih fits asked came d one room a =
      let (recvs, left, login) =
        logged_in f (1 + packet_size * length turns) i u h (on_wire turns) acts s known su sh iu ih
          fits came d one room in
      let s₁ : Server F =
        after_reply (record s { conn = record s.conn { incoming = on_wire turns; recvs = recvs } })
          u result_ok acts in
      let (recvs', sends, served) = turns_served fd m turns s₁ asked refl left a in
      (recvs', sends, rw login served)
