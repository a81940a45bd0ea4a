-- ===== src/Tftp/Transfer.antt =====
-- jumpstarter_driver_tftp/server.py: `TftpReadTransfer`, which sends a file block by block and
-- waits for each block's acknowledgement. Time enters by what arrives in each attempt.
pub mod Acks
pub mod Sends
pub mod Packets
pub mod Blocks
pub mod Log
pub mod Numbers
pub mod Delivery
use jumpstarter.Common.{
  ℕ, zero, suc, ◌+◌, ◌%◌, Bool, true, false, not, ◌&&◌, ◌||◌, Option, none, some, List, [], ◌∷◌,
  ◌++◌, ◌==◌, ltb, length, take, drop, if◌then◌else◌,
}
use jumpstarter.Tftp.{
  Bytes, data_packet, oack_packet, error_packet, opcode_of, from_bytes2, Opcode, illegal_operation,
  ack,
}

-- `options` is whether options were negotiated; `sent` the datagrams sent to the client.
pub record Transfer : Type 0 where
  pub block_size : ℕ
  pub retries : ℕ
  pub block_num : ℕ
  pub ack_received : Bool
  pub last_ack : ℕ
  pub oack_confirmed : Bool
  pub options : Bool
  pub current_packet : Option Bytes
  pub sent : List Bytes

unfoldable pub send : Bytes → Transfer → Transfer
send packet t = record t { sent = t.sent ++ packet ∷ [] }

-- `sendto(self.current_packet)`; with no packet yet it raises, and nothing is sent
abbrev pub resend : Option Bytes → Transfer → Transfer
unfolding send
resend none t = t
resend (some packet) t = send packet t

unfoldable pub handle_ack : ℕ → Transfer → Transfer
unfolding send
handle_ack block_num t =
    if not t.oack_confirmed && t.options && block_num == 0
    then record t { oack_confirmed = true; last_ack = block_num; ack_received = true }
    else if block_num == t.block_num
    then record t { last_ack = block_num; ack_received = true }
    else if block_num + 1 == t.block_num
    then resend t.current_packet t
    else t

-- The text of an ERROR, in ASCII.
abbrev pub unknown_opcode : Bytes
unknown_opcode = 85 ∷ 110 ∷ 107 ∷ 110 ∷ 111 ∷ 119 ∷ 110 ∷ 32 ∷ 111 ∷ 112 ∷ 99 ∷ 111 ∷ 100 ∷ 101 ∷ []

abbrev pub unexpected_opcode : Bytes
unexpected_opcode =
    85 ∷ 110 ∷ 101 ∷ 120 ∷ 112 ∷ 101 ∷ 99 ∷ 116 ∷ 101 ∷ 100 ∷ 32 ∷ 111 ∷ 112 ∷ 99 ∷ 111 ∷ 100 ∷ 101
    ∷ []

abbrev pub by_opcode : Option Opcode → Bytes → Transfer → Transfer
unfolding handle_ack send
by_opcode (some ack) bytes t = handle_ack (from_bytes2 (drop 2 bytes)) t
by_opcode none bytes t = send (error_packet illegal_operation unknown_opcode) t
by_opcode (some _) bytes t = send (error_packet illegal_operation unexpected_opcode) t

-- A datagram with whether it comes from the transfer's client.
pub record Datagram : Type 0 where
  pub from_client : Bool
  pub bytes : Bytes

-- `TftpTransferProtocol.datagram_received`
unfoldable pub datagram_received : Datagram → Transfer → Transfer
unfolding handle_ack send
datagram_received d t =
    if not d.from_client
    then t
    else if ltb (length d.bytes) 4
    then t
    else by_opcode (opcode_of (from_bytes2 d.bytes)) d.bytes t

unfoldable pub receive_all : List Datagram → Transfer → Transfer
receive_all [] t = t
receive_all (d ∷ ds) t = receive_all ds (datagram_received d t)

-- The attempts of `_send_with_retries`: `arrivals` has what is received in each, up to the time at
-- which the waiter wakes or gives up. It wakes if an acknowledgement was recorded.
unfoldable pub attempts_from : ℕ → (ℕ → List Datagram) → ℕ → Bytes → Transfer → Transfer × Bool
unfolding receive_all
attempts_from zero arrivals expected packet t = (t, false)
attempts_from (suc left) arrivals expected packet t =
    let t = receive_all (arrivals left) (record (send packet t) { ack_received = false }) in
    let rest = attempts_from left arrivals expected packet t in
    if t.ack_received && t.last_ack == expected then (t, true) else rest

unfoldable pub send_with_retries : (ℕ → List Datagram) → Bytes → Bool → Transfer → Transfer × Bool
send_with_retries arrivals packet is_oack t =
    let expected = (if is_oack then 0 else t.block_num) in
    attempts_from t.retries arrivals expected packet (record t { current_packet = some packet })

abbrev pub next_block : Transfer → Transfer
next_block t = record t { block_num = (t.block_num + 1) % 65536 }

-- `_handle_data_block`: the Boolean is whether the transfer goes on. The two branches of an empty
-- block, an empty file and the end of a file, do the same. The third part tells whether
-- the block was acknowledged.
unfoldable pub handle_data_block : (ℕ → List Datagram) → Bytes → Transfer → Transfer × Bool × Bool
handle_data_block arrivals [] t =
    let (t, success) = send_with_retries arrivals (data_packet t.block_num []) false t in
    (t, false, success)
handle_data_block arrivals (b ∷ bs) t =
    let block = b ∷ bs in
    let (u, success) = send_with_retries arrivals (data_packet t.block_num block) false t in
    if not success
    then (u, false, false)
    else (next_block u, not (ltb (length block) u.block_size), true)

-- The packet of a send that succeeded: the one that the attempts sent, as the transfer holds it.
abbrev pub acknowledged : Bool → Option Bytes → List Bytes
acknowledged true (some packet) = packet ∷ []
acknowledged true none = []
acknowledged false packet = []

-- What a transfer comes to: the packets that the client acknowledged, in order, whether the last one
-- ended the file, and the state.
pub record Result : Type 0 where
  pub acked : List Bytes
  pub complete : Bool
  pub final : Transfer

-- The `while` loop of `_perform_transfer`, with `fuel` rounds. `stops` tells in which the server is
-- shutting down, `gaps` what is received while the block is read, `arrivals` what is received in
-- each attempt to send it. The inner loop reads the next `block_size` bytes of the file, or what is
-- left of it.
unfoldable pub transfer_from :
    ℕ → (ℕ → Bool) → (ℕ → List Datagram) → (ℕ → ℕ → List Datagram) → Bytes → Transfer → Result
transfer_from zero stops gaps arrivals file t = record { acked = []; complete = false; final = t }
transfer_from (suc fuel) stops gaps arrivals file t =
    let block = take t.block_size file in
    let (u, continues, success) =
      handle_data_block (arrivals fuel) block (receive_all (gaps fuel) t) in
    let rest = transfer_from fuel stops gaps arrivals (drop t.block_size file) u in
    if stops fuel
    then record { acked = []; complete = false; final = t }
    else if continues
    then record {
      acked = acknowledged success u.current_packet ++ rest.acked;
      complete = rest.complete;
      final = rest.final;
    }
    else record { acked = acknowledged success u.current_packet; complete = success; final = u }
