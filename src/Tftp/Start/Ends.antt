-- ===== src/Tftp/Start/Ends.antt =====
-- How a read transfer begins and ends.
use jumpstarter.Tftp.Transfer.Blocks.{payloads}
use jumpstarter.Tftp.Transfer.Delivery.{Honest, transfer_from-delivers}
use jumpstarter.Tftp.Transfer.Acks.{SomeAck, send_with_retries-acked}
use jumpstarter.Tftp.Transfer.{Datagram, Transfer, Result, transfer_from, send_with_retries}
use jumpstarter.Common.{
  none, Option, ℕ, ◌≤◌, ◌⊎◌, List, ◌≡◌, arith, none, ◌<◌, is_some, false, true, some, length, [],
  ◌*◌, ◌==◌, Bool-cases, inl, refl, inr,
}
use jumpstarter.Tftp.{Bytes}
use jumpstarter.Tftp.Start.{
  negotiate_options, start, negotiate_block_size, new_transfer, Server, Requested, Negotiated,
}

-- The negotiated block size lies in the range of RFC 2348 from 512 on, or is the server's own; the
-- timeout likewise lies in 1 to 255 seconds, or is the server's own.
pub negotiate_options-bounds :
    (int : Bytes → Option ℕ) (server : Server) (options : Requested)
    → (((512 ≤ (negotiate_options int server options).1)
          × ((negotiate_options int server options).1 ≤ 65464))
        ⊎ ((negotiate_options int server options).1 ≡ server.block_size))
      × (((1000 ≤ (negotiate_options int server options).2)
            × ((negotiate_options int server options).2 ≤ 255000))
          ⊎ ((negotiate_options int server options).2 ≡ server.timeout_ms))
unfolding negotiate_options
negotiate_options-bounds int server options = ground arith

-- A request with a block size other than 512, from a client that acknowledges block 0 in no
-- attempt to send the OACK: nothing is transferred, and the transfer stays registered with the
-- server.
pub silent_client-leaks :
    (int : Bytes → Option ℕ) (server : Server) (options : Requested) (oack : Negotiated → Bytes)
    (arrivals : ℕ → List Datagram) (perform : Transfer → Result)
    → is_some options.blksize ≡ true
    → (negotiate_block_size int server options.blksize == 512) ≡ false
    → ((k : ℕ) → ¬ SomeAck 0 (arrivals k))
    → start int server options oack arrivals perform ≡ record { registered = true; result = none }
unfolding start negotiate_block_size
silent_client-leaks int server options oack arrivals perform asked other silent =
    let n = negotiate_options int server options in
    let t = new_transfer server n.0 n.1 in
    elim (Bool-cases (send_with_retries arrivals (oack n.0) true t).1) [
      | inl ok ↦
          let a = send_with_retries-acked arrivals (oack n.0) true t ok in absurd (silent a.0 a.2)
      | inr fails ↦ ground (arith, fails)
    ]

plain_transfer : Server → Transfer
plain_transfer server = record {
  block_size = server.block_size;
  retries = server.retries;
  block_num = 1;
  ack_received = false;
  last_ack = 0;
  oack_confirmed = true;
  options = false;
  current_packet = none;
  sent = [];
}

start_plain :
    (int : Bytes → Option ℕ) (server : Server) (options : Requested) (oack : Negotiated → Bytes)
    (arrivals : ℕ → List Datagram) (perform : Transfer → Result)
    → options.blksize ≡ none
    → options.timeout ≡ none
    → start int server options oack arrivals perform
      ≡ record { registered = false; result = some (perform (plain_transfer server)) }
unfolding start plain_transfer
start_plain int server options oack arrivals perform b o = rw (b, o)

-- A request with no options, from a client that acknowledges each block in some attempt to send it,
-- to a server with a positive block size that is not shut down: the packets that it acknowledges
-- carry the whole file, and the server has given the transfer back.
start-serves :
    (int : Bytes → Option ℕ) (server : Server) (options : Requested) (oack : Negotiated → Bytes)
    (oack_arrivals : ℕ → List Datagram) (fuel : ℕ) (gaps : ℕ → List Datagram)
    (arrivals : ℕ → ℕ → List Datagram) (file : Bytes)
    → options.blksize ≡ none
    → options.timeout ≡ none
    → 0 < server.block_size
    → length file < fuel * server.block_size
    → Honest fuel server.retries arrivals 1
    → (r : Result) × (start int server options oack oack_arrivals
          (transfer_from fuel (λ _. false) gaps arrivals file)
        ≡ record { registered = false; result = some r })
      × (r.complete ≡ true)
      × (payloads r.acked ≡ file)
unfolding plain_transfer
start-serves int server options oack oack_arrivals fuel gaps arrivals file b o size rounds honest =
    let t = plain_transfer server in
    let perform = transfer_from fuel (λ _. false) gaps arrivals file in
    let d =
      transfer_from-delivers fuel gaps arrivals file t size (omega arith) rounds refl honest in
    (perform t, start_plain int server options oack oack_arrivals perform b o, d.0, d.3)
