-- ===== src/Client/Transfer.antt =====
-- recvn of NexFile/client/clientsendMessage.c. It adds what `recv` returns to `cursize` without
-- looking at an error, and returns 0 for success and 1 at the end of the stream.
pub mod Closed
pub mod Prompt
pub mod Receive
use nex_file.Base.{
  ℕ, ◌+◌, ◌-◌, ℤ, pos, pos_part, Bytes, List, [], ◌∷◌, ◌++◌, length, take, drop, ltb, ◌==◌,
  if◌then◌else◌,
}
use nex_file.Base.Io.{Io, Run, ok, blocked, undefined}
use nex_file.Net.{RecvAct, Conn, Input, on_input, got, closed, eintr, broken, recv_step}

-- `recv` writes `bs` at `buf + cursize`.
abbrev pub write_at : (cursize : ℕ) → (bs buf : Bytes) → Bytes
write_at cursize bs buf = take cursize buf ++ (bs ++ drop (cursize + length bs) buf)

-- The loop: `buf` is what has been written, and `w` is on its way. An error lowers `cursize` by
-- one; at 0 the next `p + cursize` points in front of the buffer, which is undefined.
recvn_loop : List RecvAct → (total cursize : ℕ) → (buf w : Bytes) → Run Input (ℤ × Bytes)
recvn_loop [] total cursize buf w = if ltb cursize total then blocked else ok (pos 0, buf) (w, [])
recvn_loop (a ∷ acts) total cursize buf w =
    let back : Run Input (ℤ × Bytes) = recvn_loop acts total (cursize - 1) buf w in
    let failed : Run Input (ℤ × Bytes) = if cursize == 0 then undefined else back in
    let round : Run Input (ℤ × Bytes) = elim (recv_step a (total - cursize) w) [
      | got bs rest ↦ recvn_loop acts total (cursize + length bs) (write_at cursize bs buf) rest
      | closed ↦ ok (pos 1, buf) (w, acts)
      | eintr ↦ failed
      | broken ↦ failed
    ] in
    if ltb cursize total then round else ok (pos 0, buf) (w, a ∷ acts)

-- recvn: the result, and the bytes written to the buffer.
unfoldable pub recvn : (total : ℤ) → Io Conn (ℤ × Bytes)
unfolding recvn_loop
recvn total c = on_input c (recvn_loop c.recvs (pos_part total) 0 [] c.incoming)
