-- ===== src/Server/Signal.antt =====
-- sendSignal of NexFile/server/cmdHandle.c: the header of a reply, and its message.
pub mod Sent
use nex_file.Base.{
  ℕ, ◌-◌, ◌^◌, ℤ, pos, minus_one, is_neg, Bytes, [], ◌++◌, length, ltb, ◌==◌, if◌then◌else◌, Option,
  none, some,
}
use nex_file.Base.Io.{Io, pure, ◌>>=◌}
use nex_file.Protocol.{CmdSignal, CmdStatus, to_status}
use nex_file.Protocol.Wire.{int_bytes}
use nex_file.Net.{Conn}
use nex_file.Server.Transfer.{sendn}

-- The bytes of the four fields in front of `message_`.
unfoldable pub signal_bytes : CmdSignal → Bytes
signal_bytes s =
    int_bytes s.send_ack ++ (int_bytes s.recv_ack ++ (int_bytes s.cmd_status ++ int_bytes s.len))

abbrev pub int_max : ℕ
int_max = 2 ^ 31 - 1

-- The header for a message of `n` bytes.
abbrev pub header : CmdStatus → ℕ → CmdSignal
header status n = record {
  send_ack = pos 1;
  recv_ack = pos 1;
  cmd_status = to_status status;
  len = pos n;
}

send_message : Bytes → Io Conn ℤ
send_message msg =
    if length msg == 0
    then pure (pos 0)
    else do ret ← sendn msg; pure (if is_neg ret then minus_one else pos 0)

send_parts : CmdStatus → Bytes → Io Conn ℤ
send_parts status msg = do
  ret ← sendn (signal_bytes (header status (length msg)))
  if is_neg ret then pure minus_one else send_message msg

-- sendSignal; `none` is the null pointer.
unfoldable pub send_signal : Option Bytes → CmdStatus → Io Conn ℤ
unfolding send_parts send_message
send_signal none status = send_parts status []
send_signal (some msg) status =
    if ltb int_max (length msg) then pure minus_one else send_parts status msg
