-- ===== src/Client/Train.antt =====
-- The trains that the client receives: a length and then as many bytes, read by two calls of the
-- client's recvn whose results the source ignores.
pub mod Prompt
pub mod Quiet
pub mod Reading
use nex_file.Base.{ℤ, pos, Bytes, overwrite, length, ltb, if◌then◌else◌}
use nex_file.Base.Io.{Io, pure, fail_undefined, ◌>>=◌}
use nex_file.Protocol.{Train, data_size}
use nex_file.Protocol.Wire.{int_bytes, int_from}
use nex_file.Net.{Conn}
use nex_file.Client.Transfer.{recvn}

-- The second call, when the first has written `size` over the front of `length_`.
read_body : Train → (size : Bytes) → Io Conn Train
read_body t size =
    let len = int_from (overwrite size (int_bytes t.len)) in
    do
      (_, body) ← recvn len
      if ltb data_size (length body)
          then fail_undefined
          else pure (record { len = len; payload = overwrite body t.payload })

-- `recvn(sockfd, &train.length_, sizeof(int)); recvn(sockfd, train.data_, train.length_);`
-- Bytes behind the end of `data_` are written outside the structure.
unfoldable pub read_train : Train → Io Conn Train
unfolding read_body
read_train t = do (_, size) ← recvn (pos 4); read_body t size
