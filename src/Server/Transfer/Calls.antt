-- ===== src/Server/Transfer/Calls.antt =====
-- How many calls of `recv` recvn makes: at least one, if there is something to read.
use nex_file.Base.{
  ℕ, suc, ◌-◌, ◌<◌, ℤ, pos, pos_part, Bool-cases, inl, inr, Bytes, List, [], ◌∷◌, ◌++◌, length,
  take, drop, min, ltb, lt→ltb, ltb→lt, arith,
}
use nex_file.Base.Io.{Run, ok, blocked, undefined, exited}
use nex_file.Base.Lowers.{Within, Lowers, Below, Drops}
use nex_file.Net.{RecvAct, give, interrupted, failing, Conn, Input, on_input}
use nex_file.Server.Transfer.{recvn, recvn_loop}

-- The calls of `recv` that the schedule still has.
abbrev pub calls : Conn → ℕ
calls c = length c.recvs

abbrev left : Input → ℕ
left (w, acts) = length acts

Within-on_input :
    {A : Type 0} (n : ℕ) (c : Conn) (x : Run Input A)
    → Within left n x
    → Within calls n (on_input c x)
Within-on_input n c (ok a (w, acts)) h = h
Within-on_input n c blocked h = tt
Within-on_input n c undefined h = tt
Within-on_input n c exited h = tt

Within-suc : {A : Type 0} (n : ℕ) (x : Run Input A) → Within left n x → Within left (suc n) x
Within-suc n (ok a (w, acts)) h = omega arith
Within-suc n blocked h = tt
Within-suc n undefined h = tt
Within-suc n exited h = tt

-- The first turn of the loop, when there is something to read, uses a call.
loop_turn :
    (a : RecvAct) (acts : List RecvAct) (total : ℕ) (buf w : Bytes)
    → ((buf w : Bytes) → Within left (length acts) (recvn_loop acts total buf w))
    → length buf < total
    → Within left (length acts) (recvn_loop (a ∷ acts) total buf w)
unfolding recvn_loop
loop_turn (give k) acts total buf [] later h = rw (lt→ltb (length buf) total h) (omega arith)
loop_turn (give k) acts total buf (b ∷ bs) later h =
    let n = min (suc k) (total - length buf) in
    rw (lt→ltb (length buf) total h) (later (buf ++ take n (b ∷ bs)) (drop n (b ∷ bs)))
loop_turn interrupted acts total buf w later h = rw (lt→ltb (length buf) total h) (later buf w)
loop_turn failing acts total buf w later h = rw (lt→ltb (length buf) total h) (omega arith)

loop-Within :
    (acts : List RecvAct) (total : ℕ) (buf w : Bytes)
    → Within left (length acts) (recvn_loop acts total buf w)
loop-Within [] total buf w = elim (Bool-cases (ltb (length buf) total)) [
  | inl more ↦ unfold recvn_loop in rw more tt
  | inr done ↦ unfold recvn_loop in rw done (omega arith)
]
loop-Within (a ∷ acts) total buf w = elim (Bool-cases (ltb (length buf) total)) [
  | inl more ↦
      Within-suc (length acts) (recvn_loop (a ∷ acts) total buf w)
        (loop_turn a acts total buf w (loop-Within acts total) (ltb→lt (length buf) total more))
  | inr done ↦ unfold recvn_loop in rw done (omega arith)
]

pub recvn-Lowers : (n : ℤ) → Lowers calls (recvn n)
unfolding recvn
recvn-Lowers n c = Within-on_input (calls c) c _ (loop-Within c.recvs (pos_part n) [] c.incoming)

Below-on_input :
    {A : Type 0} (n : ℕ) (c : Conn) (x : Run Input A)
    → Below left n x
    → Below calls n (on_input c x)
Below-on_input n c (ok a (w, acts)) h = h
Below-on_input n c blocked h = tt
Below-on_input n c undefined h = tt
Below-on_input n c exited h = tt

Below-suc : {A : Type 0} (n : ℕ) (x : Run Input A) → Within left n x → Below left (suc n) x
Below-suc n (ok a (w, acts)) h = omega arith
Below-suc n blocked h = tt
Below-suc n undefined h = tt
Below-suc n exited h = tt

loop-Below :
    (acts : List RecvAct) (total : ℕ) (w : Bytes)
    → 0 < total
    → Below left (length acts) (recvn_loop acts total [] w)
unfolding recvn_loop
loop-Below [] total w h = rw (lt→ltb 0 total h) tt
loop-Below (a ∷ acts) total w h =
    Below-suc (length acts) (recvn_loop (a ∷ acts) total [] w)
      (loop_turn a acts total [] w (loop-Within acts total) h)

pub recvn-Drops : (n : ℕ) → 0 < n → Drops calls (recvn (pos n))
unfolding recvn
recvn-Drops n h c = Below-on_input (calls c) c _ (loop-Below c.recvs n c.incoming h)
