-- ===== src/Server/Train/Calls.antt =====
-- Receiving a train makes at least one call of `recv`.
use nex_file.Base.{pos, is_neg, ◌||◌, Bytes, length, ltb, arith}
use nex_file.Base.Lowers.{Lowers, Drops, Lowers-bind, Drops-bind, Lowers-if}
use nex_file.Protocol.{Train, data_size}
use nex_file.Server.Transfer.{recvn}
use nex_file.Server.Transfer.Calls.{calls, recvn-Lowers, recvn-Drops}
use nex_file.Server.Train.{read_train, copy_out, read_body}

pub read_train-Drops : (t : Train) → Drops calls (read_train t)
unfolding read_train read_body
read_train-Drops t = Drops-bind calls (recvn (pos 4)) _ (recvn-Drops 4 (omega arith)) λ (_, size).
    Lowers-bind calls (recvn _) _ (recvn-Lowers _)
      λ (_, body). Lowers-if calls (ltb data_size (length body)) _ _ (λ c. tt) (λ c. omega arith)

pub copy_out-Lowers : (t : Train) (buf : Bytes) → Lowers calls (copy_out t buf)
unfolding copy_out
copy_out-Lowers t buf = Lowers-if calls (is_neg t.len || _ || _) _ _ (λ c. tt) (λ c. omega arith)
