-- ===== src/Tftp/Transfer/Sends.antt =====
-- When a block's acknowledgement is heard, and what sending a block leaves as it was.
use mathlib.Core.Path.{subst}
use native.Mathlib.Decide.{dec_lt}
use jumpstarter.Tftp.{Bytes}
use jumpstarter.Tftp.Transfer.Acks.{
  Fixed, SomeAck, datagram_received-records, receive_all-Fixed, datagram_received-keeps,
  datagram_received-hears, Fixed-trans, Acknowledges,
}
use jumpstarter.Common.{
  List, ℕ, ◌≡◌, true, ◌∷◌, suc, ◌<◌, Bool, inl, some, false, arith, [], refl, if◌then◌else◌, ◌∙◌,
  zero, sym, inr,
}
use jumpstarter.Tftp.Transfer.{
  attempts_from, Transfer, receive_all, send_with_retries, send, Datagram, datagram_received,
}

-- With the OACK settled, what has been recorded is the acknowledgement of the block, and stays so.
keeps_all :
    (ds : List Datagram) (t : Transfer)
    → t.oack_confirmed ≡ true
    → t.ack_received ≡ true
    → t.last_ack ≡ t.block_num
    → ((receive_all ds t).ack_received ≡ true) × ((receive_all ds t).last_ack ≡ t.block_num)
unfolding receive_all
keeps_all [] t c a l = (a, l)
keeps_all (d ∷ ds) t c a l =
    let r = datagram_received-records d t c in
    let k = datagram_received-keeps d t c a l in
    let rest = keeps_all ds (datagram_received d t) r.0 k.0 (k.1 ∙ sym r.1) in
    (rest.0, rest.1 ∙ r.1)

pub confirmed_all :
    (ds : List Datagram) (t : Transfer)
    → t.oack_confirmed ≡ true
    → (receive_all ds t).oack_confirmed ≡ true
unfolding receive_all
confirmed_all [] t c = c
confirmed_all (d ∷ ds) t c =
    confirmed_all ds (datagram_received d t) (datagram_received-records d t c).0

hears_all :
    (ds : List Datagram) (t : Transfer) (n : ℕ)
    → n ≡ t.block_num
    → t.oack_confirmed ≡ true
    → SomeAck n ds
    → ((receive_all ds t).ack_received ≡ true) × ((receive_all ds t).last_ack ≡ n)
unfolding receive_all
hears_all [] t n e c h = elim h [ ]
hears_all (d ∷ ds) t n e c (inl now) =
    let r = datagram_received-records d t c in
    let k = datagram_received-hears d t c (subst (λ m. Acknowledges m d) e now) in
    let rest = keeps_all ds (datagram_received d t) r.0 k.0 (k.1 ∙ sym r.1) in
    (rest.0, rest.1 ∙ r.1 ∙ sym e)
hears_all (d ∷ ds) t n e c (inr later) =
    let r = datagram_received-records d t c in
    hears_all ds (datagram_received d t) n (e ∙ sym r.1) r.0 later

-- What sending leaves: the block size, the attempts, the block number, and the settled OACK.
pub record Sent (t u : Transfer) : Type 0 where
  pub fixed : Fixed t u
  pub confirmed : t.oack_confirmed ≡ true → u.oack_confirmed ≡ true

attempts_from-Sent :
    (left : ℕ) (arrivals : ℕ → List Datagram) (expected : ℕ) (packet : Bytes) (t : Transfer)
    → Sent t (attempts_from left arrivals expected packet t).0
unfolding attempts_from send
attempts_from-Sent zero arrivals expected packet t = record {
  fixed = record { block_size = refl; retries = refl; block_num = refl };
  confirmed = λ c. c;
}
attempts_from-Sent (suc left) arrivals expected packet t =
    let before = record (send packet t) { ack_received = false } in
    let u = receive_all (arrivals left) before in
    let f = receive_all-Fixed (arrivals left) before in
    let rest = attempts_from-Sent left arrivals expected packet u in
    record {
      fixed = ground (arith, f, rest.fixed);
      confirmed = ground (arith, confirmed_all (arrivals left) before, rest.confirmed);
    }

pub send_with_retries-Sent :
    (arrivals : ℕ → List Datagram) (packet : Bytes) (is_oack : Bool) (t : Transfer)
    → Sent t (send_with_retries arrivals packet is_oack t).0
unfolding send_with_retries
send_with_retries-Sent arrivals packet is_oack t =
    let first = record t { current_packet = some packet } in
    let s =
      attempts_from-Sent t.retries arrivals (if is_oack then 0 else t.block_num) packet first in
    record {
      fixed = Fixed-trans (record { block_size = refl; retries = refl; block_num = refl }) s.fixed;
      confirmed = s.confirmed;
    }

-- An acknowledgement in some attempt makes the send succeed.
attempts_from-hears :
    (left : ℕ) (arrivals : ℕ → List Datagram) (n : ℕ) (packet : Bytes) (t : Transfer) (k : ℕ)
    → n ≡ t.block_num
    → t.oack_confirmed ≡ true
    → k < left
    → SomeAck n (arrivals k)
    → (attempts_from left arrivals n packet t).1 ≡ true
unfolding attempts_from send
attempts_from-hears zero arrivals n packet t k e c h a = absurd (omega arith)
attempts_from-hears (suc left) arrivals n packet t k e c h a =
    let before = record (send packet t) { ack_received = false } in
    let u = receive_all (arrivals left) before in
    elim (dec_lt k left) [
      | yes earlier ↦
          let rest =
            attempts_from-hears left arrivals n packet u k
              (e ∙ sym (receive_all-Fixed (arrivals left) before).block_num)
              (confirmed_all (arrivals left) before c) earlier a in
          ground (arith, rest)
      | no same ↦
          let here : k ≡ left = omega arith in
          let r =
            hears_all (arrivals left) before n e c (subst (λ m. SomeAck n (arrivals m)) here a) in
          ground (arith, r)
    ]

pub send_with_retries-hears :
    (arrivals : ℕ → List Datagram) (packet : Bytes) (t : Transfer) (k : ℕ)
    → t.oack_confirmed ≡ true
    → k < t.retries
    → SomeAck t.block_num (arrivals k)
    → (send_with_retries arrivals packet false t).1 ≡ true
unfolding send_with_retries
send_with_retries-hears arrivals packet t k c h a =
    attempts_from-hears t.retries arrivals t.block_num packet
      (record t { current_packet = some packet }) k refl c h a
