-- ===== src/Server/Transfer/Receive.antt =====
-- What recvn returns and what it has read, for every schedule of `recv`.
use nex_file.Base.{
  ℕ, suc, ◌+◌, ◌-◌, ◌<◌, ◌≤◌, ◌^◌, ◌≡◌, refl, sym, ◌∙◌, ap, subst, ℤ, pos, minus_one, pos_part,
  true, Bool-cases, inl, inr, ◌⊎◌, Bytes, List, [], ◌∷◌, ◌++◌, append_assoc, length, split_at,
  length-append, length-take, length-drop, take, drop, take-append-drop, min, ltb, ltb→lt, le→ltb,
  arith,
}
use nex_file.Base.Io.{Run, ok, blocked, undefined, exited}
use nex_file.Protocol.Wire.{int_of_small}
use nex_file.Net.{RecvAct, give, interrupted, failing, Conn, Input, on_input}
use nex_file.Net.Schedule.{deliveries, NoError, Delivers}
use nex_file.Server.Transfer.{to_int, recvn, recvn_loop}

-- How a call of recvn ends that has written `out` and leaves the bytes `w`.
abbrev pub Ending : (total : ℕ) → ℤ → (out w : Bytes) → Type 0
Ending total r out w =
    (r ≡ to_int total) × (length out ≡ total)
    ⊎ (r ≡ pos 0) × (length out < total) × (w ≡ [])
    ⊎ (r ≡ minus_one) × (length out < total)

-- `buf` has been read, and the bytes `w` are on their way.
abbrev Sound : (total : ℕ) → (buf w : Bytes) → Run Input (ℤ × Bytes) → Type 0
Sound total buf w (ok (r, out) (w', acts)) =
    (buf ++ w ≡ out ++ w') × (length out ≤ total) × Ending total r out w'
Sound total buf w blocked = Unit
Sound total buf w undefined = ⊥
Sound total buf w exited = ⊥

Sound-step :
    (total : ℕ) (buf bs rest : Bytes) (x : Run Input (ℤ × Bytes))
    → Sound total (buf ++ bs) rest x
    → Sound total buf (bs ++ rest) x
Sound-step total buf bs rest (ok (r, out) (w', acts)) s =
    (sym (append_assoc buf bs rest) ∙ s.0, s.1, s.2)
Sound-step total buf bs rest blocked s = tt
Sound-step total buf bs rest undefined s = s
Sound-step total buf bs rest exited s = s

length-got :
    (k : ℕ) (buf w : Bytes) (total : ℕ)
    → ltb (length buf) total ≡ true
    → length (buf ++ take (min k (total - length buf)) w) ≤ total
length-got k buf w total h =
    let lt = ltb→lt (length buf) total h in
    omega (
      arith,
      length-append buf (take (min k (total - length buf)) w),
      length-take (min k (total - length buf)) w,
    )

recvn_loop-Sound :
    (acts : List RecvAct) (total : ℕ) (buf w : Bytes)
    → length buf ≤ total
    → Sound total buf w (recvn_loop acts total buf w)
unfolding recvn_loop
recvn_loop-Sound [] total buf w h = elim (Bool-cases (ltb (length buf) total)) [
  | inl more ↦ rw more tt
  | inr done ↦ rw done (refl, h, inl (ground arith, ground arith))
]
recvn_loop-Sound (interrupted ∷ acts) total buf w h = elim (Bool-cases (ltb (length buf) total)) [
  | inl more ↦ rw more (recvn_loop-Sound acts total buf w h)
  | inr done ↦ rw done (refl, h, inl (ground arith, ground arith))
]
recvn_loop-Sound (failing ∷ acts) total buf w h = elim (Bool-cases (ltb (length buf) total)) [
  | inl more ↦ rw more (refl, h, inr (inr (refl, ltb→lt _ _ more)))
  | inr done ↦ rw done (refl, h, inl (ground arith, ground arith))
]
recvn_loop-Sound (give k ∷ acts) total buf [] h = elim (Bool-cases (ltb (length buf) total)) [
  | inl more ↦ rw more (refl, h, inr (inl (refl, ltb→lt _ _ more, refl)))
  | inr done ↦ rw done (refl, h, inl (ground arith, ground arith))
]
recvn_loop-Sound (give k ∷ acts) total buf (b ∷ bs) h =
    let n = min (suc k) (total - length buf) in
    elim (Bool-cases (ltb (length buf) total)) [
      | inl more ↦ rw more (
          subst
            (λ w.
              Sound total buf w (recvn_loop acts total (buf ++ take n (b ∷ bs)) (drop n (b ∷ bs))))
            (take-append-drop n (b ∷ bs))
            (Sound-step total buf (take n (b ∷ bs)) (drop n (b ∷ bs)) _ (
              recvn_loop-Sound acts total (buf ++ take n (b ∷ bs)) (drop n (b ∷ bs))
                (length-got (suc k) buf (b ∷ bs) total more))))
      | inr done ↦ rw done (refl, h, inl (ground arith, ground arith))
    ]

-- What a call of recvn may do to the connection `c`: it neither loses nor reorders a byte, writes
-- at most `total` of them, and sends nothing.
abbrev pub Reads : (total : ℕ) → Conn → Run Conn (ℤ × Bytes) → Type 0
Reads total c (ok (r, out) c') =
    (c.incoming ≡ out ++ c'.incoming)
    × (length out ≤ total)
    × (c'.outgoing ≡ c.outgoing)
    × Ending total r out c'.incoming
Reads total c blocked = Unit
Reads total c undefined = ⊥
Reads total c exited = ⊥

Reads-of_Sound :
    (total : ℕ) (c : Conn) (x : Run Input (ℤ × Bytes))
    → Sound total [] c.incoming x
    → Reads total c (on_input c x)
Reads-of_Sound total c (ok (r, out) (w, acts)) s = (s.0, s.1, refl, s.2)
Reads-of_Sound total c blocked s = tt
Reads-of_Sound total c undefined s = s
Reads-of_Sound total c exited s = s

-- Under every schedule of `recv`, recvn writes a prefix of what was on its way and not more than
-- `total` bytes, and its result tells how it ended: `total`, 0 at the end of the stream, -1.
pub recvn-Reads : (total : ℤ) (c : Conn) → Reads (pos_part total) c (recvn total c)
unfolding recvn
recvn-Reads total c =
    Reads-of_Sound (pos_part total) c _
      (recvn_loop-Sound c.recvs (pos_part total) [] c.incoming (omega arith))

-- The loop ends with all bytes, and leaves a schedule that still delivers `k` bytes.
abbrev Finishes : (k total : ℕ) → Run Input (ℤ × Bytes) → Type 0
Finishes k total (ok (r, out) (w, acts)) =
    (r ≡ to_int total) × (length out ≡ total) × Delivers k acts
Finishes k total _ = ⊥

recvn_loop-Finishes :
    (acts : List RecvAct) (k total : ℕ) (buf w : Bytes)
    → length buf ≤ total
    → total ≤ length buf + length w
    → NoError acts
    → k + total ≤ deliveries acts + length buf
    → Finishes k total (recvn_loop acts total buf w)
unfolding recvn_loop
recvn_loop-Finishes [] k total buf w h there clean enough =
    rw (le→ltb (length buf) total (omega arith))
      (ap to_int (omega arith), omega arith, record { clean = tt; enough = omega arith })
recvn_loop-Finishes (failing ∷ acts) k total buf w h there clean enough = absurd clean
recvn_loop-Finishes (interrupted ∷ acts) k total buf w h there clean enough =
    elim (Bool-cases (ltb (length buf) total)) [
      | inl more ↦ rw more (recvn_loop-Finishes acts k total buf w h there clean enough)
      | inr done ↦
          let e : length buf ≡ total = ground arith in
          rw done (ap to_int e, e, record { clean = clean; enough = omega arith })
    ]
recvn_loop-Finishes (give j ∷ acts) k total buf [] h there clean enough =
    rw (le→ltb (length buf) total (omega arith))
      (ap to_int (omega arith), omega arith, record { clean = clean; enough = omega arith })
recvn_loop-Finishes (give j ∷ acts) k total buf (b ∷ bs) h there clean enough =
    let n = min (suc j) (total - length buf) in
    let grown = length-append buf (take n (b ∷ bs)) in
    let taken = length-take n (b ∷ bs) in
    let left = length-drop n (b ∷ bs) in
    elim (Bool-cases (ltb (length buf) total)) [
      | inl more ↦
          let lt = ltb→lt (length buf) total more in
          rw more (
            recvn_loop-Finishes acts k total (buf ++ take n (b ∷ bs)) (drop n (b ∷ bs))
              (omega arith) (omega arith) clean (omega arith))
      | inr done ↦
          let e : length buf ≡ total = ground arith in
          rw done (ap to_int e, e, record { clean = clean; enough = omega arith })
    ]

-- What recvn must do with `n` bytes that arrive.
pub record Complete (k n : ℕ) (c : Conn) (x : Run Conn (ℤ × Bytes)) : Type 0 where
  pub acts : List RecvAct
  pub returns :
      x ≡ ok (pos n, take n c.incoming) (record c { incoming = drop n c.incoming; recvs = acts })
  pub delivers : Delivers k acts

to_int_small : (n : ℕ) → n < 2 ^ 31 → to_int n ≡ pos n
to_int_small n h = ground (arith, int_of_small n h)

Complete-of :
    (k n : ℕ) (c : Conn) (x : Run Input (ℤ × Bytes))
    → n < 2 ^ 31
    → Sound n [] c.incoming x
    → Finishes k n x
    → Complete k n c (on_input c x)
Complete-of k n c (ok (r, out) (w, acts)) small s f =
    let cut = split_at n out w c.incoming s.0 f.1 in
    let full : r ≡ pos n = f.0 ∙ to_int_small n small in
    record { acts = acts; returns = cc (cut.0, cut.1); delivers = f.2 }
Complete-of k n c blocked small s f = absurd f
Complete-of k n c undefined small s f = absurd f
Complete-of k n c exited small s f = absurd f

-- If n bytes, fewer than 2 ^ 31, are on their way, and the schedule of recv has no error but
-- EINTR and a delivery for each byte, then recvn returns n and exactly the next n bytes, however
-- they are cut into deliveries.
pub recvn-Complete :
    (k n : ℕ) (c : Conn)
    → n < 2 ^ 31
    → n ≤ length c.incoming
    → Delivers (k + n) c.recvs
    → Complete k n c (recvn (pos n) c)
unfolding recvn
recvn-Complete k n c small there d =
    Complete-of k n c _ small (recvn_loop-Sound c.recvs n [] c.incoming (omega arith)) (
      recvn_loop-Finishes c.recvs k n [] c.incoming (omega arith) (omega arith) d.clean
        (omega (arith, d.enough)))
