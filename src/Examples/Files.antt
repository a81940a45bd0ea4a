-- ===== src/Examples/Files.antt =====
-- Transfers of a small file at concrete inputs.
use jumpstarter.Tftp.Start.Ends.{silent_client-leaks, negotiate_options-bounds}
use jumpstarter.Tftp.Start.{
  start, negotiate_options, Requested, Server, Negotiated, negotiate_block_size,
}
use jumpstarter.Tftp.Transfer.Blocks.{payloads}
use jumpstarter.Tftp.Transfer.Numbers.{Numbered}
use jumpstarter.Tftp.Transfer.Log.{AllSent}
use jumpstarter.Tftp.Transfer.Delivery.{Honest, transfer_from-delivers}
use jumpstarter.Common.{
  zero, suc, ℕ, arith, false, List, [], true, inl, ◌∷◌, ◌≡◌, ◌/◌, none, ◌%◌, refl, ◌≤◌, Option, ◌⊎◌,
  some,
}
use jumpstarter.Tftp.Transfer.{Transfer, transfer_from, Datagram, Result}
use jumpstarter.Tftp.{Bytes}

-- Three bytes, in blocks of two, after settled options.
abbrev begun : Transfer
begun = record {
  block_size = 2;
  retries = 3;
  block_num = 1;
  ack_received = false;
  last_ack = 0;
  oack_confirmed = true;
  options = false;
  current_packet = none;
  sent = [];
}

abbrev ack_of : ℕ → Datagram
ack_of n = record { from_client = true; bytes = 0 ∷ 4 ∷ (n / 256) ∷ (n % 256) ∷ [] }

-- Both blocks are acknowledged, the first at its last attempt.
abbrev answers : ℕ → ℕ → List Datagram
answers (suc zero) zero = ack_of 1 ∷ []
answers (suc zero) (suc k) = []
answers n k = ack_of 2 ∷ []

abbrev silence : ℕ → List Datagram
silence _ = []

answers-Honest : Honest 2 3 answers 1
answers-Honest = (
  (0, omega arith, inl (refl, omega arith, refl, refl)),
  ((0, omega arith, inl (refl, omega arith, refl, refl)), record {}),
)

transfer_from-delivers_example :
    let r = transfer_from 2 (λ _. false) silence answers (7 ∷ 8 ∷ 9 ∷ []) begun in
    (r.complete ≡ true)
    × AllSent r.acked r.final.sent
    × Numbered 1 r.acked
    × (payloads r.acked ≡ 7 ∷ 8 ∷ 9 ∷ [])
transfer_from-delivers_example =
    transfer_from-delivers 2 silence answers (7 ∷ 8 ∷ 9 ∷ []) begun (omega arith) (omega arith)
      (omega arith) refl answers-Honest

abbrev small_server : Server
small_server = record { block_size = 2; timeout_ms = 5000; retries = 3 }

abbrev only_timeout : Requested
only_timeout = record { blksize = none; timeout = some (53 ∷ []) }

abbrev large_blocks : Requested
large_blocks = record { blksize = some (49 ∷ []); timeout = none }

-- Every text is read as 1024, and no OACK is made.
abbrev int_of : Bytes → Option ℕ
int_of text = some 1024

abbrev no_oack : Negotiated → Bytes
no_oack o = []

abbrev performed : Transfer → Result
performed t = record { acked = []; complete = false; final = t }

negotiate_options-bounds_example :
    (((512 ≤ (negotiate_options int_of small_server large_blocks).1)
        × ((negotiate_options int_of small_server large_blocks).1 ≤ 65464))
      ⊎ ((negotiate_options int_of small_server large_blocks).1 ≡ 2))
    × (((1000 ≤ (negotiate_options int_of small_server large_blocks).2)
          × ((negotiate_options int_of small_server large_blocks).2 ≤ 255000))
        ⊎ ((negotiate_options int_of small_server large_blocks).2 ≡ 5000))
negotiate_options-bounds_example = negotiate_options-bounds int_of small_server large_blocks

silent_client-leaks_example :
    start int_of small_server large_blocks no_oack silence performed
    ≡ record { registered = true; result = none }
unfolding negotiate_block_size
silent_client-leaks_example =
    silent_client-leaks int_of small_server large_blocks no_oack silence performed refl refl
      (λ k h. h)
