-- ===== src/Server/Train.antt =====
-- The trains that the server receives: a length and then as many bytes, read by two calls of
-- recvn whose results the source ignores.
pub mod Reading
pub mod Calls
pub mod Quiet
use nex_file.Base.{
  ℕ, ℤ, pos, pos_part, is_neg, ◌||◌, Bytes, ◌++◌, [], ◌∷◌, length, take, replicate, overwrite, ltb,
  if◌then◌else◌, ◌==◌, Bool, true, false,
}
use nex_file.Base.Io.{Io, pure, fail_undefined, ◌>>=◌}
use nex_file.Protocol.{Train, data_size}
use nex_file.Protocol.Wire.{int_bytes, int_from}
use nex_file.Net.{Conn}
use nex_file.Server.Transfer.{recvn}

-- `memset(&train, 0, sizeof(train))`
abbrev pub train_zero : Train
train_zero = record { len = pos 0; payload = replicate data_size 0 }

-- The second call, when the first has written `size` over the front of `length_`.
pub read_body : Train → (size : Bytes) → Io Conn Train
read_body t size =
    let len = int_from (overwrite size (int_bytes t.len)) in
    do
      (_, body) ← recvn len
      if ltb data_size (length body)
          then fail_undefined
          else pure (record { len = len; payload = overwrite body t.payload })

-- `recvn(sockfd, &train.length_, sizeof(int)); recvn(sockfd, train.data_, train.length_);`
-- Bytes behind the end of `data_` are written outside the structure.
unfoldable pub read_train : Train → Io Conn Train
unfolding read_body
read_train t = do (_, size) ← recvn (pos 4); read_body t size

-- `memcpy(buf, train.data_, train.length_)`, from the 1024 bytes of `data_` into the bytes of
-- `buf`. A negative length is a huge `size_t`.
unfoldable pub copy_out : Train → Bytes → Io Conn Bytes
copy_out t buf =
    if is_neg t.len || ltb (length buf) (pos_part t.len) || ltb data_size (pos_part t.len)
    then fail_undefined
    else pure (overwrite (take (pos_part t.len) t.payload) buf)
