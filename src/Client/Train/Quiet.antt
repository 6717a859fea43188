-- ===== src/Client/Train/Quiet.antt =====
-- The client sends nothing while it receives a train.
use nex_file.Base.{refl, ℤ, pos, Bytes, length, ltb}
use nex_file.Base.Io.{Run, ok, blocked, undefined, exited, fail_undefined}
use nex_file.Base.Keeps.{Kept, Keeps, Keeps-bind, Keeps-if}
use nex_file.Protocol.{Train, data_size}
use nex_file.Net.{Conn, Input, on_input}
use nex_file.Server.Train.Quiet.{sent}
use nex_file.Client.Transfer.{recvn}
use nex_file.Client.Train.{read_train, read_body}

on_input-sent : {A : Type 0} (c : Conn) (x : Run Input A) → Kept sent c (on_input c x)
on_input-sent c (ok a i) = refl
on_input-sent c blocked = tt
on_input-sent c undefined = tt
on_input-sent c exited = tt

pub recvn-sent : (total : ℤ) → Keeps sent (recvn total)
unfolding recvn
recvn-sent total c = on_input-sent c _

read_body-sent : (t : Train) (size : Bytes) → Keeps sent (read_body t size)
unfolding read_body
read_body-sent t size =
    Keeps-bind sent (recvn _) _ (recvn-sent _) λ (_, body).
      Keeps-if sent (ltb data_size (length body)) fail_undefined _ (λ c. tt) (λ c. refl)

pub read_train-sent : (t : Train) → Keeps sent (read_train t)
unfolding read_train
read_train-sent t =
    Keeps-bind sent (recvn (pos 4)) _ (recvn-sent (pos 4)) λ (_, size). read_body-sent t size
