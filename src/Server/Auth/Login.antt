-- ===== src/Server/Auth/Login.antt =====
-- What UserAuthen makes of a user's name and hash on the wire.
use nex_file.Base.{
  ℕ, zero, suc, ◌+◌, ◌-◌, ◌<◌, ◌≤◌, ◌≡◌, ap, true, Bool-cases, inl, inr, Bytes, c_str, c_str-append,
  IsStr, List, ◌∷◌, ◌++◌, length, drop, take-length-append, replicate, length-replicate,
  length-overwrite, refl, overwrite, ltb, le→ltb, lt→leb, le→leb, arith,
}
use nex_file.Base.Io.{ok, undefined}
use nex_file.Protocol.{data_size}
use nex_file.Protocol.Wire.{train_bytes}
use nex_file.Net.{Conn, RecvAct}
use nex_file.Net.Schedule.{Delivers}
use nex_file.Server.Train.{copy_out, train_zero}
use nex_file.Server.Train.Reading.{carrying, read_train-Got}
use nex_file.Server.Files.{string_in}
use nex_file.Server.Auth.{receive_text}

drop-replicate :
    (n room : ℕ) → n < room → drop {A = ℕ} n (replicate room 0) ≡ 0 ∷ replicate (room - n - 1) 0
drop-replicate n zero h = absurd (omega arith)
drop-replicate zero (suc room) h = let e : suc room - 0 - 1 ≡ room = omega arith in rw e
drop-replicate (suc n) (suc room) h =
    let e : suc room - suc n - 1 ≡ room - n - 1 = omega arith in
    rw e (drop-replicate n room (omega arith))

copied :
    (room : ℕ) (text : Bytes) (c : Conn)
    → length text ≤ room
    → length text ≤ data_size
    → copy_out (carrying text train_zero) (replicate room 0) c
      ≡ ok (overwrite text (replicate room 0)) c
unfolding copy_out
copied room text c fits short = rw (
  length-replicate {A = ℕ} room 0,
  le→ltb room (length text) fits,
  le→ltb data_size (length text) short,
  take-length-append text (drop (length text) (replicate data_size 0)),
)

-- The string in the buffer is the text.
pub text_of :
    (room : ℕ) (text : Bytes)
    → length text < room
    → IsStr text
    → c_str (overwrite text (replicate room 0)) ≡ text
text_of room text fits str =
    rw (drop-replicate (length text) room fits)
      (c_str-append text (replicate (room - length text - 1) 0) str)

-- The string in a cleared buffer with room for the text and a NUL
pub string_in-cleared :
    {S : Type 0} (room : ℕ) (text : Bytes) (s : S)
    → length text < room
    → IsStr text
    → string_in (overwrite text (replicate room 0)) s ≡ ok text s
string_in-cleared room text s short str =
    let zeros = length-replicate {A = ℕ} room 0 in
    let whole = length-overwrite text (replicate room 0) (omega (arith, zeros)) in
    let size = length (overwrite text (replicate room 0)) in
    rw (text_of room text short str, lt→leb size (length text) (omega (arith, whole, zeros))) refl

-- A text read into a buffer with room for it and its NUL.
pub receive_text-Got :
    (k room : ℕ) (text rest : Bytes) (c : Conn)
    → length text < room
    → room ≤ data_size
    → IsStr text
    → c.incoming ≡ train_bytes text ++ rest
    → Delivers (k + length text + 4) c.recvs
    → (acts : List RecvAct) × (receive_text room c
        ≡ ok text (record c { incoming = rest; recvs = acts }))
      × Delivers k acts
unfolding receive_text
receive_text-Got k room text rest c fits small str e d =
    let r = read_train-Got k train_zero text rest c (omega arith) e d in
    let c₁ = record c { incoming = rest; recvs = r.acts } in
    let stored = copied room text c₁ (omega arith) (omega arith) in
    (
      r.acts,
      rw r.returns (
          rw stored
            (rw (lt→leb room (length text) fits) (ap (λ s. ok s c₁) (text_of room text fits str)))),
      r.delivers,
    )

too_long :
    (room : ℕ) (text : Bytes) (c : Conn)
    → ltb room (length text) ≡ true
    → copy_out (carrying text train_zero) (replicate room 0) c ≡ undefined
unfolding copy_out
too_long room text c h = rw (length-replicate {A = ℕ} room 0, h)

-- A text with no room for its NUL in the buffer is written past its end.
pub receive_text_overflow :
    (room : ℕ) (text rest : Bytes) (c : Conn)
    → room ≤ length text
    → length text ≤ data_size
    → c.incoming ≡ train_bytes text ++ rest
    → Delivers (length text + 4) c.recvs
    → receive_text room c ≡ undefined
unfolding receive_text
receive_text_overflow room text rest c large short e d =
    let r =
      read_train-Got 0 train_zero text rest c short e
        (record { clean = d.clean; enough = omega (arith, d.enough) }) in
    let c₁ = record c { incoming = rest; recvs = r.acts } in
    elim (Bool-cases (ltb room (length text))) [
      | inl beyond ↦ rw r.returns (rw (too_long room text c₁ beyond))
      | inr exact ↦
          rw r.returns
            (rw (copied room text c₁ (ground arith) short, le→leb room (length text) large))
    ]
