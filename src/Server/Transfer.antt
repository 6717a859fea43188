-- ===== src/Server/Transfer.antt =====
-- recvn and sendn of NexFile/server/sendMessage.c. (The client's sendn in
-- NexFile/client/clientsendMessage.c is the same text.)
pub mod Receive
pub mod Calls
pub mod Closed
pub mod Prompt
pub mod Send
use nex_file.Base.{
  ℕ, zero, suc, ◌+◌, ◌-◌, ◌%◌, ◌^◌, ℤ, pos, minus_one, pos_part, Bytes, List, [], ◌∷◌, ◌++◌, length,
  ltb, if◌then◌else◌,
}
use nex_file.Base.Io.{Io, Run, ok, blocked}
use nex_file.Protocol.Wire.{int_of}
use nex_file.Net.{
  RecvAct, SendAct, Conn, Input, on_input, Received, got, closed, eintr, broken, recv_step, Sent,
  took, send_eintr, send_broken, send_step,
}

-- The conversion of a `long` that is not negative to the result type `int`.
abbrev pub to_int : ℕ → ℤ
to_int n = int_of (n % 2 ^ 32)

-- The loop of recvn: `buf` is what it has written, so `cursize` is its length; `w` is on its way.
unfoldable pub recvn_loop : List RecvAct → (total : ℕ) → Bytes → (w : Bytes) → Run Input (ℤ × Bytes)
recvn_loop [] total buf w =
    if ltb (length buf) total then blocked else ok (to_int (length buf), buf) (w, [])
recvn_loop (a ∷ acts) total buf w =
    let round : Run Input (ℤ × Bytes) = elim (recv_step a (total - length buf) w) [
      | got bs rest ↦ recvn_loop acts total (buf ++ bs) rest
      | closed ↦ ok (pos 0, buf) (w, acts)
      | eintr ↦ recvn_loop acts total buf w
      | broken ↦ ok (minus_one, buf) (w, acts)
    ] in
    if ltb (length buf) total then round else ok (to_int (length buf), buf) (w, a ∷ acts)

-- recvn: the result, and the bytes written to the buffer. A negative `total` reads nothing.
unfoldable pub recvn : (total : ℤ) → Io Conn (ℤ × Bytes)
unfolding recvn_loop
recvn total c = on_input c (recvn_loop c.recvs (pos_part total) [] c.incoming)

-- The loop of sendn: `sent` bytes are sent, and `left` are not.
sendn_loop : List SendAct → (sent : ℕ) → (left : Bytes) → Conn → Run Conn ℤ
sendn_loop acts sent [] c = ok (to_int sent) (record c { sends = acts })
sendn_loop [] sent (b ∷ bs) c = blocked
sendn_loop (a ∷ acts) sent (b ∷ bs) c = elim (send_step a (b ∷ bs)) [
  | took done rest ↦
      sendn_loop acts (sent + length done) rest (record c { outgoing = c.outgoing ++ done })
  | send_eintr ↦ sendn_loop acts sent (b ∷ bs) c
  | send_broken ↦ ok minus_one (record c { sends = acts })
]

-- sendn of all bytes of `bs`
unfoldable pub sendn : Bytes → Io Conn ℤ
unfolding sendn_loop
sendn bs c = sendn_loop c.sends 0 bs c
