-- ===== src/Client/Signal.antt =====
-- recvSignal of NexFile/client/fileOpt.c: the reply to a command. `calloc` is an argument.
pub mod Prompt
pub mod Quiet
pub mod Refused
pub mod Waiting
use nex_file.Base.{
  ℕ, suc, ℤ, pos, minus_one, is_neg, is_nonpos, eq_ℤ, pos_part, Bool, not, ◌||◌, Bytes, overwrite,
  drop, replicate, ltb, ◌==◌, if◌then◌else◌,
}
use nex_file.Base.Io.{Io, pure, ◌>>=◌}
use nex_file.Protocol.{CmdSignal}
use nex_file.Protocol.Wire.{int_from}
use nex_file.Net.{Conn}
use nex_file.Client.Transfer.{recvn}

-- `sizeof(cmdSignal_t)`
abbrev pub signal_size : ℕ
signal_size = 16

-- The structure that `memset` has cleared, after `bs` was written over its front.
unfoldable pub signal_of : Bytes → CmdSignal
signal_of bs =
    let whole = overwrite bs (replicate signal_size 0) in
    record {
      send_ack = int_from whole;
      recv_ack = int_from (drop 4 whole);
      cmd_status = int_from (drop 8 whole);
      len = int_from (drop 12 whole);
    }

-- recvSignal behind its length test
recv_message : (alloc : Bool) → ℤ → Io Conn ℤ
recv_message alloc len =
    if is_nonpos len
    then pure (pos 0)
    else if not alloc
    then pure minus_one
    else do (ret, msg) ← recvn len; pure (if is_nonpos ret then minus_one else pos 0)

-- recvSignal behind the read of the header
recv_header : (alloc : Bool) → (ret : ℤ) → Bytes → Io Conn ℤ
recv_header alloc ret bs =
    let len = (signal_of bs).len in
    if is_neg ret
    then pure minus_one
    else if eq_ℤ ret (pos 0)
    then pure minus_one
    else if is_neg len || ltb 1024 (pos_part len)
    then pure minus_one
    else recv_message alloc len

-- recvSignal
unfoldable pub recv_signal : (alloc : Bool) → Io Conn ℤ
unfolding recv_message recv_header
recv_signal alloc = do (ret, bs) ← recvn (pos signal_size); recv_header alloc ret bs
