-- ===== src/Tftp/Transfer/Packets.antt =====
-- The datagrams that a transfer has sent: none is taken back, and a packet that is acknowledged, the
-- one that is held to be sent again, is among them.
use jumpstarter.Tftp.{Bytes, Opcode, opcode_of, from_bytes2, ack, rrq, wrq, data_op, error, oack}
use jumpstarter.Common.{
  ℕ, zero, suc, ◌≡◌, refl, Bool, true, false, Option, none, some, List, [], ◌∷◌, ◌++◌, arith,
  append-nil, append_assoc, if_both, sym, ◌∙◌, ap, if◌then◌else◌, ◌&&◌, not, drop, ◌==◌, ltb,
  length, ◌+◌,
}
use jumpstarter.Tftp.Transfer.{
  Transfer, Datagram, datagram_received, receive_all, attempts_from, send_with_retries, send,
  resend, handle_ack, by_opcode,
}

-- From one log of datagrams to a later one, more has been sent.
pub record Extends (log later : List Bytes) : Type 0 where
  pub more : List Bytes
  pub added : later ≡ log ++ more

-- A packet is among what has been sent.
pub record Sends (packet : Bytes) (log : List Bytes) : Type 0 where
  pub before : List Bytes
  pub after : List Bytes
  pub found : log ≡ before ++ packet ∷ after

pub Extends-refl : (log : List Bytes) → Extends log log
Extends-refl log = record { more = []; added = sym (append-nil log) }

one_more : (packet : Bytes) (log : List Bytes) → Extends log (log ++ packet ∷ [])
one_more packet log = record { more = packet ∷ []; added = refl }

pub Extends-trans : {a b c : List Bytes} → Extends a b → Extends b c → Extends a c
Extends-trans {a = a} x y = record {
  more = x.more ++ y.more;
  added = y.added ∙ ap (λ log. log ++ y.more) x.added ∙ append_assoc a x.more y.more;
}

pub Sends-Extends :
    {packet : Bytes} {a b : List Bytes} → Sends packet a → Extends a b → Sends packet b
Sends-Extends {packet = packet} s e = record {
  before = s.before;
  after = s.after ++ e.more;
  found =
      e.added ∙ ap (λ log. log ++ e.more) s.found ∙ append_assoc s.before (packet ∷ s.after) e.more;
}

resend-Extends : (o : Option Bytes) (t : Transfer) → Extends t.sent (resend o t).sent
unfolding send
resend-Extends none t = Extends-refl t.sent
resend-Extends (some packet) t = one_more packet t.sent

handle_ack-Extends : (n : ℕ) (t : Transfer) → Extends t.sent (handle_ack n t).sent
unfolding handle_ack
handle_ack-Extends n t =
    let still = Extends-refl t.sent in
    if_both (λ (u : Transfer). Extends t.sent u.sent) (not t.oack_confirmed && t.options && n == 0)
      still
      (if_both (λ (u : Transfer). Extends t.sent u.sent) (n == t.block_num) still
        (if_both (λ (u : Transfer). Extends t.sent u.sent) (n + 1 == t.block_num)
          (resend-Extends t.current_packet t) still))

by_opcode-Extends :
    (o : Option Opcode) (bytes : Bytes) (t : Transfer) → Extends t.sent (by_opcode o bytes t).sent
unfolding send by_opcode
by_opcode-Extends (some ack) bytes t = handle_ack-Extends (from_bytes2 (drop 2 bytes)) t
by_opcode-Extends none bytes t = one_more _ t.sent
by_opcode-Extends (some rrq) bytes t = one_more _ t.sent
by_opcode-Extends (some wrq) bytes t = one_more _ t.sent
by_opcode-Extends (some data_op) bytes t = one_more _ t.sent
by_opcode-Extends (some error) bytes t = one_more _ t.sent
by_opcode-Extends (some oack) bytes t = one_more _ t.sent

datagram_received-Extends :
    (d : Datagram) (t : Transfer) → Extends t.sent (datagram_received d t).sent
unfolding datagram_received
datagram_received-Extends d t =
    if_both (λ (u : Transfer). Extends t.sent u.sent) (not d.from_client) (Extends-refl t.sent)
      (if_both (λ (u : Transfer). Extends t.sent u.sent) (ltb (length d.bytes) 4)
        (Extends-refl t.sent) (by_opcode-Extends (opcode_of (from_bytes2 d.bytes)) d.bytes t))

pub receive_all-Extends :
    (ds : List Datagram) (t : Transfer) → Extends t.sent (receive_all ds t).sent
unfolding receive_all
receive_all-Extends [] t = Extends-refl t.sent
receive_all-Extends (d ∷ ds) t =
    Extends-trans (datagram_received-Extends d t) (receive_all-Extends ds (datagram_received d t))

datagram_received-current :
    (d : Datagram) (t : Transfer) → (datagram_received d t).current_packet ≡ t.current_packet
unfolding datagram_received
datagram_received-current d t = ground arith

receive_all-current :
    (ds : List Datagram) (t : Transfer) → (receive_all ds t).current_packet ≡ t.current_packet
unfolding receive_all
receive_all-current [] t = refl
receive_all-current (d ∷ ds) t =
    receive_all-current ds (datagram_received d t) ∙ datagram_received-current d t

-- What the attempts leave: more is sent, the packet to be sent again is the same, and where they
-- succeed, their packet has been sent.
pub record Attempted (packet : Bytes) (t : Transfer) (r : Transfer × Bool) : Type 0 where
  pub more : Extends t.sent r.0.sent
  pub current : r.0.current_packet ≡ t.current_packet
  pub sends : r.1 ≡ true → Sends packet r.0.sent

attempts_from-Attempted :
    (left : ℕ) (arrivals : ℕ → List Datagram) (expected : ℕ) (packet : Bytes) (t : Transfer)
    → Attempted packet t (attempts_from left arrivals expected packet t)
unfolding attempts_from send
attempts_from-Attempted zero arrivals expected packet t = record {
  more = Extends-refl t.sent;
  current = refl;
  sends = λ h. cc;
}
attempts_from-Attempted (suc left) arrivals expected packet t =
    let before = record (send packet t) { ack_received = false } in
    let u = receive_all (arrivals left) before in
    let first : Extends t.sent before.sent = one_more packet t.sent in
    let e : Extends t.sent u.sent =
      Extends-trans first (receive_all-Extends (arrivals left) before) in
    let c : u.current_packet ≡ t.current_packet = receive_all-current (arrivals left) before in
    let out : Sends packet before.sent = record { before = t.sent; after = []; found = refl } in
    let rest = attempts_from-Attempted left arrivals expected packet u in
    if_both (λ (r : Transfer × Bool). Attempted packet t r)
      (u.ack_received && u.last_ack == expected)
      (record {
        more = e;
        current = c;
        sends = λ _. Sends-Extends out (receive_all-Extends (arrivals left) before);
      })
      (record { more = Extends-trans e rest.more; current = rest.current ∙ c; sends = rest.sends })

module _ (arrivals : ℕ → List Datagram) (packet : Bytes) (is_oack : Bool) (t : Transfer) where
  pub send_with_retries-Attempted :
      Attempted packet
        (record t { current_packet = some packet })
        (send_with_retries arrivals packet is_oack t)
  unfolding send_with_retries
  send_with_retries-Attempted =
      attempts_from-Attempted t.retries arrivals (if is_oack then 0 else t.block_num) packet
        (record t { current_packet = some packet })
