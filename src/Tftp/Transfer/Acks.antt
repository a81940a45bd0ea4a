-- ===== src/Tftp/Transfer/Acks.antt =====
-- When a packet counts as acknowledged.
use jumpstarter.Tftp.{opcode_of, from_bytes2, ack, Bytes}
use jumpstarter.Common.{
  ℕ, ◌≡◌, ◌≤◌, ◌⊎◌, true, some, List, [], ◌∷◌, arith, refl, length, inr, drop, ◌<◌, Bool, suc,
  if◌then◌else◌, false, Bool-cases, ◌&&◌, ◌==◌, inl, zero,
}
use jumpstarter.Tftp.Transfer.{
  datagram_received, Transfer, receive_all, Datagram, attempts_from, send_with_retries, send,
}

-- A datagram from the client that acknowledges a block number.
abbrev pub Acknowledges : ℕ → Datagram → Type 0
Acknowledges n d =
    (d.from_client ≡ true)
    × (4 ≤ length d.bytes)
    × (opcode_of (from_bytes2 d.bytes) ≡ some ack)
    × (from_bytes2 (drop 2 d.bytes) ≡ n)

abbrev pub SomeAck : ℕ → List Datagram → Type 0
SomeAck n [] = ⊥
SomeAck n (d ∷ ds) = Acknowledges n d ⊎ SomeAck n ds

-- What no datagram changes.
pub record Fixed (t u : Transfer) : Type 0 where
  pub block_size : u.block_size ≡ t.block_size
  pub retries : u.retries ≡ t.retries
  pub block_num : u.block_num ≡ t.block_num

pub Fixed-trans : {t u v : Transfer} → Fixed t u → Fixed u v → Fixed t v
Fixed-trans a b = ground arith

datagram_received-Fixed : (d : Datagram) (t : Transfer) → Fixed t (datagram_received d t)
unfolding datagram_received
datagram_received-Fixed d t = ground arith

pub receive_all-Fixed : (ds : List Datagram) (t : Transfer) → Fixed t (receive_all ds t)
unfolding receive_all
receive_all-Fixed [] t = record { block_size = refl; retries = refl; block_num = refl }
receive_all-Fixed (d ∷ ds) t =
    Fixed-trans (datagram_received-Fixed d t) (receive_all-Fixed ds (datagram_received d t))

datagram_received-acked :
    (d : Datagram) (t : Transfer)
    → (datagram_received d t).ack_received ≡ true
    → Acknowledges (datagram_received d t).last_ack d
      ⊎ ((t.ack_received ≡ true) × ((datagram_received d t).last_ack ≡ t.last_ack))
unfolding datagram_received
datagram_received-acked d t h = ground arith

-- An acknowledgement that is recorded was received, or was recorded before.
receive_all-acked :
    (ds : List Datagram) (t : Transfer)
    → (receive_all ds t).ack_received ≡ true
    → SomeAck (receive_all ds t).last_ack ds
      ⊎ ((t.ack_received ≡ true) × ((receive_all ds t).last_ack ≡ t.last_ack))
unfolding receive_all
receive_all-acked [] t h = inr (h, refl)
receive_all-acked (d ∷ ds) t h =
    let u = datagram_received d t in
    ground (arith, receive_all-acked ds u h, datagram_received-acked d t)

-- Of an expected number's acknowledgement, if the send succeeded.
attempts_from-acked :
    (left : ℕ) (arrivals : ℕ → List Datagram) (expected : ℕ) (packet : Bytes) (t : Transfer)
    → (attempts_from left arrivals expected packet t).1 ≡ true
    → (k : ℕ) × (k < left) × SomeAck expected (arrivals k)
unfolding attempts_from
attempts_from-acked zero arrivals expected packet t h = cc
attempts_from-acked (suc left) arrivals expected packet t h =
    let u = receive_all (arrivals left) (record (send packet t) { ack_received = false }) in
    elim (Bool-cases (u.ack_received && u.last_ack == expected)) [
      | inl now ↦ (
        left,
        omega arith,
        ground (
          arith,
          now,
          receive_all-acked (arrivals left) (record (send packet t) { ack_received = false }),
        ),
      )
      | inr later ↦
          let rest =
            attempts_from-acked left arrivals expected packet u (ground (arith, later, h)) in
          (rest.0, omega (arith, rest.1), rest.2)
    ]

-- A send that succeeds was acknowledged: in some attempt, of which there are at most `retries`, the
-- client sent an acknowledgement of the block that is being sent, or of 0 for an OACK.
pub send_with_retries-acked :
    (arrivals : ℕ → List Datagram) (packet : Bytes) (is_oack : Bool) (t : Transfer)
    → (send_with_retries arrivals packet is_oack t).1 ≡ true
    → (k : ℕ) × (k < t.retries) × SomeAck (if is_oack then 0 else t.block_num) (arrivals k)
unfolding send_with_retries
send_with_retries-acked arrivals packet is_oack t h =
    attempts_from-acked t.retries arrivals (if is_oack then 0 else t.block_num) packet
      (record t { current_packet = some packet }) h

-- Once the OACK is settled, a block's acknowledgement among what arrives is recorded.
pub datagram_received-records :
    (d : Datagram) (t : Transfer)
    → t.oack_confirmed ≡ true
    → ((datagram_received d t).oack_confirmed ≡ true)
      × ((datagram_received d t).block_num ≡ t.block_num)
unfolding datagram_received
datagram_received-records d t c = ground arith

pub datagram_received-keeps :
    (d : Datagram) (t : Transfer)
    → t.oack_confirmed ≡ true
    → t.ack_received ≡ true
    → t.last_ack ≡ t.block_num
    → ((datagram_received d t).ack_received ≡ true)
      × ((datagram_received d t).last_ack ≡ t.block_num)
unfolding datagram_received
datagram_received-keeps d t c a l = ground arith

pub datagram_received-hears :
    (d : Datagram) (t : Transfer)
    → t.oack_confirmed ≡ true
    → Acknowledges t.block_num d
    → ((datagram_received d t).ack_received ≡ true)
      × ((datagram_received d t).last_ack ≡ t.block_num)
unfolding datagram_received
datagram_received-hears d t c a = ground (arith, a)
