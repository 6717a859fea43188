-- ===== src/Client/Login/Prompt.antt =====
-- A login when each call of `send` and `recv` moves all that it is given or asked for.
use nex_file.Base.{
  ℕ, suc, ◌+◌, ◌<◌, ◌≤◌, ◌≡◌, refl, ap, pos, false, Bytes, codes, text_eq, IsStr, List, ◌∷◌, ◌++◌,
  append_assoc, length, le→ltb, ◌||◌, some, arith,
}
use nex_file.Base.Io.{ok}
use nex_file.Protocol.{Train, data_size}
use nex_file.Protocol.Wire.{train_bytes, length-train_bytes}
use nex_file.Net.{Conn, RecvAct, SendAct, give, accept}
use nex_file.Server.Transfer.Prompt.{sendn-prompt}
use nex_file.Client.Train.Prompt.{read_train-prompt}
use nex_file.Client.Login.{
  Crypt, Login, send_train, send_texts, handle_password, handle_authentication,
}
use nex_file.Client.Login.Received.{judged, handle_authentication-answer}

train_prompt :
    (k : ℕ) (acts : List SendAct) (text : Bytes) (c : Conn)
    → length text ≤ data_size
    → length text + 4 ≤ suc k
    → c.sends ≡ accept k ∷ acts
    → send_train text c
      ≡ ok false (record c { outgoing = c.outgoing ++ train_bytes text; sends = acts })
unfolding send_train
train_prompt k acts text c short room e =
    let size = length-train_bytes text in
    rw
      (
        le→ltb data_size (length text) short,
        sendn-prompt k acts (train_bytes text) c (omega (arith, size)) (omega (arith, size))
            (omega (arith, size)) e,
      )
      refl

-- handlePassword, when each of its two calls of send takes its train
password_prompt :
    (crypt : Crypt) (k j : ℕ) (acts : List SendAct) (u p h : Bytes) (c : Conn)
    → crypt p ≡ some h
    → length u ≤ data_size
    → length h ≤ data_size
    → length u + 4 ≤ suc k
    → length h + 4 ≤ suc j
    → c.sends ≡ accept k ∷ accept j ∷ acts
    → handle_password crypt (some u) (some p) c
      ≡ ok
          (pos 0)
          (record c { outgoing = c.outgoing ++ (train_bytes u ++ train_bytes h); sends = acts })
unfolding handle_password send_texts
password_prompt crypt k j acts u p h c hash su sh room room' e =
    let c₁ = record c { outgoing = c.outgoing ++ train_bytes u; sends = accept j ∷ acts } in
    rw (hash, train_prompt k (accept j ∷ acts) u c su room e)
      (rw (train_prompt j acts h c₁ sh room' refl) (
        ap (λ o. ok (pos 0) (record c { outgoing = o; sends = acts }))
          (append_assoc c.outgoing (train_bytes u) (train_bytes h))))

-- A login answered with a short text, when the two calls of send take the name and the hash, and two
-- calls of recv deliver the length and the text of the reply.
pub handle_authentication-prompt :
    (crypt : Crypt) (t : Train) (k j a b : ℕ) (sends : List SendAct) (recvs : List RecvAct)
    (u p h text rest : Bytes) (l : Login)
    → crypt p ≡ some h
    → length u ≤ data_size
    → length h ≤ data_size
    → length u + 4 ≤ suc k
    → length h + 4 ≤ suc j
    → 0 < length text
    → length text < 64
    → IsStr text
    → 4 ≤ suc a
    → length text ≤ suc b
    → l.conn.sends ≡ accept k ∷ accept j ∷ sends
    → l.conn.recvs ≡ give a ∷ give b ∷ recvs
    → l.conn.incoming ≡ train_bytes text ++ rest
    → handle_authentication crypt t (some u) (some p) l
      ≡ ok (judged text) (record {
        conn = record {
          incoming = rest;
          recvs = recvs;
          outgoing = l.conn.outgoing ++ (train_bytes u ++ train_bytes h);
          sends = sends;
        };
        is_connected = text_eq text (codes "AUTH_RESULT_OK") || l.is_connected;
      })
handle_authentication-prompt crypt t k j a b sends recvs u p h text rest l hash su sh ru rh
      some_text short str four room es er e =
    let c₁ = record l.conn {
      outgoing = l.conn.outgoing ++ (train_bytes u ++ train_bytes h);
      sends = sends;
    } in
    handle_authentication-answer crypt t u p text l c₁ _
      (password_prompt crypt k j sends u p h l.conn hash su sh ru rh es)
      (read_train-prompt t text rest c₁ a b recvs some_text (omega arith) four room e er) short str
