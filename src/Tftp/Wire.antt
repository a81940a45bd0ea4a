-- ===== src/Tftp/Wire.antt =====
-- Packets are read back as they were written.
use jumpstarter.Common.{ℕ, ◌<◌, ◌≡◌, some, drop, arith, refl}
use jumpstarter.Tftp.{Bytes, data_packet, opcode_of, from_bytes2, data_op}

-- A DATA packet of a block number below 65536 is read back: its opcode, the block number, and the
-- payload behind the four bytes of its head.
pub data_packet-read :
    (n : ℕ) (payload : Bytes)
    → n < 65536
    → (opcode_of (from_bytes2 (data_packet n payload)) ≡ some data_op)
      × (from_bytes2 (drop 2 (data_packet n payload)) ≡ n)
      × (drop 4 (data_packet n payload) ≡ payload)
unfolding data_packet
data_packet-read n payload h = (refl, omega arith, refl)
