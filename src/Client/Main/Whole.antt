-- ===== src/Client/Main/Whole.antt =====
-- A whole run of the client: a login, directories, the end of the input.
use nex_file.Base.{
  suc, ℕ, ◌+◌, ◌≤◌, ◌≡◌, refl, ap, pos, true, false, Bytes, codes, text_eq, All, List, [], ◌∷◌,
  ◌++◌, ◌==◌, ◌-◌, ◌<◌, ◌∙◌, take_all, length-append, length, some, arith,
}
use nex_file.Base.Io.{ok}
use nex_file.Protocol.{PacketCmd, Train, data_size}
use nex_file.Protocol.Wire.{train_bytes}
use nex_file.Net.{RecvAct, SendAct, give, accept}
use nex_file.Client.Login.{Crypt, Login, handle_authentication}
use nex_file.Client.Login.Prompt.{handle_authentication-prompt}
use nex_file.Client.FileOpt.{Client, LocalOs, Scratch}
use nex_file.Client.Main.{Input, text, fgets, before_newline, handle_authen_event, main}
use nex_file.Client.Main.Prompt.{
  Exchange, IsExchange, packets, replies, taking, giving, waiting, event_loop-exchanges,
}

-- A text without the end of a line.
abbrev pub IsLine : Bytes → Type 0
IsLine l = All (λ c. (c == b'\n') ≡ false) l

before_newline-append : (l : Bytes) → IsLine l → before_newline (l ++ b'\n' ∷ []) ≡ l
unfolding before_newline
before_newline-append [] h = refl
before_newline-append (c ∷ l) h = rw h.0 (ap (◌∷◌ c) (before_newline-append l h.1))

line_read :
    (size : ℕ) (l : Bytes)
    → IsLine l
    → length l + 1 < size
    → before_newline (fgets size (l ++ b'\n' ∷ [])) ≡ l
unfolding fgets
line_read size l h short =
    ap before_newline
      (take_all (size - 1) (l ++ b'\n' ∷ []) (omega (arith, length-append l (b'\n' ∷ []))))
    ∙ before_newline-append l h

-- What the user types to log in.
abbrev pub credentials : (u p : Bytes) → List Input
credentials u p = text (u ++ b'\n' ∷ []) ∷ text (p ++ b'\n' ∷ []) ∷ []

abbrev pub welcome_text : Bytes
welcome_text = codes "AUTH_RESULT_OK"

module _ {F : Type 0} (crypt : Crypt) (t : Train) (u p h : Bytes) where
  -- One round of handle_authen_event that succeeds.
  logged_in :
      (s : Client F) (l : Login)
      → IsLine u
      → IsLine p
      → length u + 1 < 64
      → length p + 1 < 128
      → s.is_connected ≡ false
      → handle_authentication crypt t
          (some u)
          (some p)
          (record { conn = s.conn; is_connected = s.is_connected })
        ≡ ok (pos 0) l
      → handle_authen_event crypt t (credentials u p) s
        ≡ ok (pos 0, []) (record s { conn = l.conn; is_connected = l.is_connected })
  unfolding handle_authen_event
  logged_in s l lu lp ru rp off done =
      rw (off, line_read 64 u lu ru, line_read 128 p lp rp) (rw (rw off at done) refl)

  -- The login of a fresh connection, when each call moves all that it is given or asked for.
  welcomed :
      (k j a b : ℕ) (sends : List SendAct) (recvs : List RecvAct) (rest : Bytes) (s : Client F)
      → crypt p ≡ some h
      → IsLine u
      → IsLine p
      → length u + 1 < 64
      → length p + 1 < 128
      → length h ≤ data_size
      → length u + 4 ≤ suc k
      → length h + 4 ≤ suc j
      → 4 ≤ suc a
      → 14 ≤ suc b
      → s.is_connected ≡ false
      → s.conn.sends ≡ accept k ∷ accept j ∷ sends
      → s.conn.recvs ≡ give a ∷ give b ∷ recvs
      → s.conn.incoming ≡ train_bytes welcome_text ++ rest
      → handle_authen_event crypt t (credentials u p) s
        ≡ ok
            (pos 0, [])
            (record s {
              conn = record {
                incoming = rest;
                recvs = recvs;
                outgoing = s.conn.outgoing ++ (train_bytes u ++ train_bytes h);
                sends = sends;
              };
              is_connected = true;
            })
  unfolding text_eq
  welcomed k j a b sends recvs rest s hash lu lp su sp sh ru rh four room off es er e =
      logged_in s _ lu lp su sp off (
        handle_authentication-prompt crypt t k j a b sends recvs u p h welcome_text rest
          (record { conn = s.conn; is_connected = s.is_connected }) hash (omega arith) sh ru rh
          (omega arith) (omega arith) (omega arith) four room es er e)

module _ {F : Type 0} (os : LocalOs F) (crypt : Crypt) (t : Train) (u p h : Bytes) where
  -- A whole run of the client. The user types a name and a password, each of which one fgets reads with the end of its line, then the
  -- lines, each a mkdir of one word that one read takes, and then the end of the input. If socket, connect and epoll_create succeed, each
  -- call of send takes its train or packet, each call of recv delivers what is asked for, and the
  -- answer to the login and then the replies arrive, each before the next line: main returns 0, and has
  -- sent the name and the hash as two trains and then the packet of each line, in order.
  pub main-session :
      (k j a b : ℕ) (q : PacketCmd) (m : Scratch) (xs : List Exchange) (s : Client F)
      → crypt p ≡ some h
      → IsLine u
      → IsLine p
      → length u + 1 < 64
      → length p + 1 < 128
      → length h ≤ data_size
      → length u + 4 ≤ suc k
      → length h + 4 ≤ suc j
      → 4 ≤ suc a
      → 14 ≤ suc b
      → s.is_connected ≡ false
      → All IsExchange xs
      → s.conn.sends ≡ accept k ∷ accept j ∷ taking xs
      → s.conn.recvs ≡ give a ∷ give b ∷ giving xs
      → s.conn.incoming ≡ train_bytes welcome_text ++ replies xs
      → main os crypt t true true true (credentials u p) (waiting q m xs) s
        ≡ ok (pos 0) (record s {
          conn = record {
            incoming = [];
            recvs = [];
            outgoing = (s.conn.outgoing ++ (train_bytes u ++ train_bytes h)) ++ packets xs;
            sends = [];
          };
          is_connected = true;
        })
  unfolding main
  main-session k j a b q m xs s hash lu lp su sp sh ru rh four room off hs es er e =
      let s₁ : Client F = record {
        conn = record {
          incoming = replies xs;
          recvs = giving xs;
          outgoing = s.conn.outgoing ++ (train_bytes u ++ train_bytes h);
          sends = taking xs;
        };
        is_connected = true;
        files = s.files;
      } in
      let login =
        welcomed crypt t u p h k j a b (taking xs) (giving xs) (replies xs) s hash lu lp su sp sh ru
          rh four room off es er e in
      rw login (rw (event_loop-exchanges os q m xs s₁ hs refl refl refl) refl)
