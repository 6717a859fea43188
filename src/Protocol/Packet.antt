-- ===== src/Protocol/Packet.antt =====
-- How a `packetCmd_t` lies in memory: two `uint32_t`, an `int` and the 1024 bytes of `data_`.
use nex_file.Base.{
  ℕ, ◌<◌, ◌^◌, ◌≡◌, sym, ◌∙◌, ap, Bytes, ◌++◌, length, take, drop, take-length-append, arith,
}
use nex_file.Protocol.{PacketCmd, data_size}
use nex_file.Protocol.Wire.{
  u32_bytes, u32_of, int_bytes, int_from, IsInt, u32_of-u32_bytes, int_from-int_bytes,
}

-- `sizeof(packetCmd_t)`
abbrev pub packet_size : ℕ
packet_size = 1036

-- The structure as it is sent, and the structure that these bytes are.
unfoldable pub packet_bytes : PacketCmd → Bytes
packet_bytes p = u32_bytes p.cmd_code ++ (u32_bytes p.arg_flag ++ (int_bytes p.len ++ p.payload))

unfoldable pub packet_of : Bytes → PacketCmd
packet_of bs = record {
  cmd_code = u32_of bs;
  arg_flag = u32_of (drop 4 bs);
  len = int_from (drop 8 bs);
  payload = take data_size (drop 12 bs);
}

-- A packet whose fields have the values of their C types.
pub record IsWire (p : PacketCmd) : Type 0 where
  pub cmd_code : p.cmd_code < 2 ^ 32
  pub arg_flag : p.arg_flag < 2 ^ 32
  pub len : IsInt p.len
  pub payload : length p.payload ≡ data_size

pub length-packet_bytes : (p : PacketCmd) → IsWire p → length (packet_bytes p) ≡ packet_size
unfolding packet_bytes u32_bytes int_bytes
length-packet_bytes p h = omega (arith, h.payload)

packet_path :
    (p q : PacketCmd)
    → p.cmd_code ≡ q.cmd_code
    → p.arg_flag ≡ q.arg_flag
    → p.len ≡ q.len
    → p.payload ≡ q.payload
    → p ≡ q
packet_path p q a b c d = λ i. record { cmd_code = a i; arg_flag = b i; len = c i; payload = d i }

-- The packet that is read from the bytes of a packet, whatever lies behind them, is that packet.
pub packet_of-append :
    (p : PacketCmd) (rest : Bytes) → IsWire p → packet_of (packet_bytes p ++ rest) ≡ p
unfolding packet_of packet_bytes u32_bytes int_bytes
packet_of-append p rest h =
    packet_path (packet_of (packet_bytes p ++ rest)) p (u32_of-u32_bytes p.cmd_code _ h.cmd_code)
      (u32_of-u32_bytes p.arg_flag _ h.arg_flag)
      (int_from-int_bytes p.len (p.payload ++ rest) h.len)
      (ap (λ n. take n (p.payload ++ rest)) (sym h.payload) ∙ take-length-append p.payload rest)
