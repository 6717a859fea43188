-- ===== src/Server/Train/Quiet.antt =====
-- Receiving sends nothing.
use nex_file.Base.{refl, ℤ, pos, Bytes, length, ltb, is_neg, pos_part, ◌||◌}
use nex_file.Base.Io.{Run, ok, blocked, undefined, exited}
use nex_file.Base.Keeps.{Kept, Keeps, Keeps-bind, Keeps-if}
use nex_file.Protocol.{Train, data_size}
use nex_file.Net.{Conn, Input, on_input}
use nex_file.Server.Transfer.{recvn, recvn_loop}
use nex_file.Server.Train.{read_train, read_body, copy_out}

-- All that was sent to the peer.
abbrev pub sent : Conn → Bytes
sent c = c.outgoing

on_input-sent : {A : Type 0} (c : Conn) (x : Run Input A) → Kept sent c (on_input c x)
on_input-sent c (ok a (w, acts)) = refl
on_input-sent c blocked = tt
on_input-sent c undefined = tt
on_input-sent c exited = tt

pub recvn-sent : (n : ℤ) → Keeps sent (recvn n)
unfolding recvn
recvn-sent n c = on_input-sent c (recvn_loop c.recvs (pos_part n) _ c.incoming)

pub read_train-sent : (t : Train) → Keeps sent (read_train t)
unfolding read_train read_body
read_train-sent t = Keeps-bind sent (recvn (pos 4)) _ (recvn-sent (pos 4)) λ (_, size).
    Keeps-bind sent (recvn _) _ (recvn-sent _)
      λ (_, body). Keeps-if sent (ltb data_size (length body)) _ _ (λ s. tt) (λ s. refl)

pub copy_out-sent : (t : Train) (buf : Bytes) → Keeps sent (copy_out t buf)
unfolding copy_out
copy_out-sent t buf = Keeps-if sent (is_neg t.len || _ || _) _ _ (λ s. tt) (λ s. refl)
