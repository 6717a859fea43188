-- ===== src/Protocol.antt =====
-- NexFile/shared/protocol.h: the command codes, the packets and the names of the commands.
pub mod Wire
pub mod Names
pub mod Packet
use nex_file.Base.{
  ℕ, ℤ, pos, negsuc, Bytes, codes, text_eq, if◌then◌else◌, Option, none, some, replicate,
}

-- `CommandCode`; `to_code` gives the values of the enum, which travel in `cmdCode_`.
pub data CommandCode : Type 0 where
  req_invalid req_cd req_ls req_pwd req_rm req_put req_get req_mkdir : CommandCode

abbrev pub to_code : CommandCode → ℕ
to_code req_invalid = 0
to_code req_cd = 1
to_code req_ls = 2
to_code req_pwd = 3
to_code req_rm = 4
to_code req_put = 5
to_code req_get = 6
to_code req_mkdir = 7

-- `sizeof(data_)` of a packet and of a train
abbrev pub data_size : ℕ
data_size = 1024

-- `train_t`: `length_` and the 1024 bytes of `data_`
pub record Train : Type 0 where
  pub len : ℤ
  pub payload : Bytes

-- `packetCmd_t`: `cmdCode_`, `argFlag_`, `length_` and the 1024 bytes of `data_`
pub record PacketCmd : Type 0 where
  pub cmd_code : ℕ
  pub arg_flag : ℕ
  pub len : ℤ
  pub payload : Bytes

-- `CmdStatus`
pub data CmdStatus : Type 0 where
  cmd_success cmd_nohandle cmd_failure cmd_not_found cmd_invalid : CmdStatus

abbrev pub to_status : CmdStatus → ℤ
to_status cmd_success = pos 1
to_status cmd_nohandle = pos 0
to_status cmd_failure = negsuc 0
to_status cmd_not_found = negsuc 1
to_status cmd_invalid = negsuc 2

-- `cmdSignal_t`, the fields before the flexible `message_`
pub record CmdSignal : Type 0 where
  pub send_ack : ℤ
  pub recv_ack : ℤ
  pub cmd_status : ℤ
  pub len : ℤ

str_to_code : Bytes → CommandCode
str_to_code s =
    if text_eq s (codes "cd")
    then req_cd
    else if text_eq s (codes "ls")
    then req_ls
    else if text_eq s (codes "mkdir")
    then req_mkdir
    else if text_eq s (codes "rm")
    then req_rm
    else if text_eq s (codes "put")
    then req_put
    else if text_eq s (codes "get")
    then req_get
    else if text_eq s (codes "pwd")
    then req_pwd
    else req_invalid

-- `str_to_cmdcode`; `none` is the null pointer
unfoldable pub str_to_cmdcode : Option Bytes → CommandCode
unfolding str_to_code
str_to_cmdcode none = req_invalid
str_to_cmdcode (some s) = str_to_code s
