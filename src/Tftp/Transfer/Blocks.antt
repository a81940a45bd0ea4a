-- ===== src/Tftp/Transfer/Blocks.antt =====
-- What a transfer delivers: the payloads of the acknowledged packets are the file, in order.
use jumpstarter.Tftp.Transfer.Acks.{SomeAck, receive_all-Fixed}
use jumpstarter.Tftp.Transfer.Sends.{send_with_retries-Sent, send_with_retries-hears}
use jumpstarter.Tftp.Transfer.Packets.{send_with_retries-Attempted}
use jumpstarter.Tftp.Transfer.{
  acknowledged, Datagram, Transfer, handle_data_block, transfer_from, receive_all,
}
use jumpstarter.Tftp.{Bytes, data_packet}
use jumpstarter.Common.{
  some, List, ℕ, length, ◌∷◌, ◌≡◌, ◌<◌, ◌++◌, [], take, arith, true, false, refl, suc, ◌≤◌, ◌⊎◌, ap,
  ◌+◌, zero, ◌%◌, Bool, take-append-drop, drop, Bool-cases, inl, inr, append_assoc, append-nil,
  length-take, ◌∙◌,
}

-- What DATA packets carry, behind the four bytes of each one's head.
abbrev pub payloads : List Bytes → Bytes
payloads [] = []
payloads (p ∷ ps) = drop 4 p ++ payloads ps

empty_length : (xs : Bytes) → length xs ≡ 0 → xs ≡ []
empty_length [] h = refl
empty_length (x ∷ xs) h = absurd (omega (arith, h))

short_take : (n : ℕ) (file : Bytes) → length file < n → take n file ≡ file
short_take zero file h = absurd (omega arith)
short_take (suc n) [] h = refl
short_take (suc n) (x ∷ xs) h = ap (λ ys. x ∷ ys) (short_take n xs (omega arith))

module _ (arrivals : ℕ → List Datagram) (block : Bytes) (t : Transfer) where
  pub round_Sent :
      ((handle_data_block arrivals block t).0.block_size ≡ t.block_size)
      × ((handle_data_block arrivals block t).0.retries ≡ t.retries)
      × (t.oack_confirmed ≡ true → (handle_data_block arrivals block t).0.oack_confirmed ≡ true)
  unfolding handle_data_block
  round_Sent =
      ground (arith, send_with_retries-Sent arrivals (data_packet t.block_num block) false t)

  pub round_goes :
      (handle_data_block arrivals block t).1 ≡ true
      → ((handle_data_block arrivals block t).2 ≡ true)
        × (t.block_size ≤ length block)
        × ((handle_data_block arrivals block t).0.block_num ≡ (t.block_num + 1) % 65536)
  unfolding handle_data_block
  round_goes h =
      ground (arith, send_with_retries-Sent arrivals (data_packet t.block_num block) false t)

  round_ends :
      (handle_data_block arrivals block t).1 ≡ false
      → (handle_data_block arrivals block t).2 ≡ true
      → (length block ≡ 0) ⊎ (length block < t.block_size)
  unfolding handle_data_block
  round_ends h ok =
      ground (arith, send_with_retries-Sent arrivals (data_packet t.block_num block) false t)

  pub round_hears :
      (k : ℕ)
      → t.oack_confirmed ≡ true
      → k < t.retries
      → SomeAck t.block_num (arrivals k)
      → (handle_data_block arrivals block t).2 ≡ true
  unfolding handle_data_block
  round_hears k c h a =
      ground (arith, send_with_retries-hears arrivals (data_packet t.block_num block) t k c h a)

  -- The packet that a round sends carries its block.
  pub round_packet :
      (handle_data_block arrivals block t).0.current_packet ≡ some (data_packet t.block_num block)
  unfolding handle_data_block
  round_packet = ground (
    arith,
    (send_with_retries-Attempted arrivals (data_packet t.block_num block) false t).current,
  )

  round_payloads :
      (ps : List Bytes)
      → (handle_data_block arrivals block t).2 ≡ true
      → payloads (
          acknowledged
            (handle_data_block arrivals block t).2
            (handle_data_block arrivals block t).0.current_packet
          ++ ps)
        ≡ block ++ payloads ps
  unfolding data_packet
  round_payloads ps h = rw (h, round_packet) refl

-- The round's state before its block is sent.
abbrev block_of : Bytes → Transfer → Bytes
block_of file t = take t.block_size file

gap_Fixed : (ds : List Datagram) (t : Transfer) → (receive_all ds t).block_size ≡ t.block_size
gap_Fixed ds t = (receive_all-Fixed ds t).block_size

-- Whatever arrives, whenever the server stops, and with any number of rounds: the payloads of the
-- packets that were acknowledged, in their order, are a beginning of the file.
pub transfer_from-prefix :
    (fuel : ℕ) (stops : ℕ → Bool) (gaps : ℕ → List Datagram) (arrivals : ℕ → ℕ → List Datagram)
    (file : Bytes) (t : Transfer)
    → (rest : Bytes) × (payloads (transfer_from fuel stops gaps arrivals file t).acked ++ rest
        ≡ file)
unfolding transfer_from
transfer_from-prefix zero stops gaps arrivals file t = (file, refl)
transfer_from-prefix (suc fuel) stops gaps arrivals file t =
    let block = take t.block_size file in
    let v = receive_all (gaps fuel) t in
    let r = handle_data_block (arrivals fuel) block v in
    let later = transfer_from-prefix fuel stops gaps arrivals (drop t.block_size file) r.0 in
    let parts = take-append-drop t.block_size file in
    elim (Bool-cases (stops fuel)) [
      | inl halt ↦ (file, ground (arith, halt))
      | inr runs ↦ elim (Bool-cases r.1) [
        | inl goes ↦ (
          later.0,
          ground (
            arith,
            runs,
            goes,
            later.1,
            parts,
            round_payloads (arrivals fuel) block v
                (transfer_from fuel stops gaps arrivals (drop t.block_size file) r.0).acked
                (round_goes (arrivals fuel) block v goes).0,
            append_assoc block
                (payloads
                  (transfer_from fuel stops gaps arrivals (drop t.block_size file) r.0).acked)
                later.0,
          ),
        )
        | inr ends ↦ elim (Bool-cases r.2) [
          | inl ok ↦ (
            drop t.block_size file,
            ground (
              arith,
              runs,
              ends,
              ok,
              parts,
              round_payloads (arrivals fuel) block v [] ok,
              append-nil block,
              append-nil (acknowledged r.2 r.0.current_packet),
            ),
          )
          | inr lost ↦ (file, ground (arith, runs, ends, lost))
        ]
      ]
    ]

-- A block that ends the file is what was left of it.
last_block :
    (n m : ℕ) (file : Bytes)
    → 0 < n
    → m ≡ n
    → (length (take n file) ≡ 0) ⊎ (length (take n file) < m)
    → take n file ≡ file
last_block n m file size e h = short_take n file (ground (arith, length-take n file))

whole :
    (block file later rest : Bytes) → block ++ later ≡ file → rest ≡ later → block ++ rest ≡ file
whole block file later rest parts e = ap (λ xs. block ++ xs) e ∙ parts

-- With a positive block size, a transfer whose last block is acknowledged has delivered the file:
-- the payloads of the acknowledged packets, in their order, are all of it.
pub transfer_from-complete :
    (fuel : ℕ) (stops : ℕ → Bool) (gaps : ℕ → List Datagram) (arrivals : ℕ → ℕ → List Datagram)
    (file : Bytes) (t : Transfer)
    → 0 < t.block_size
    → (transfer_from fuel stops gaps arrivals file t).complete ≡ true
    → payloads (transfer_from fuel stops gaps arrivals file t).acked ≡ file
unfolding transfer_from
transfer_from-complete zero stops gaps arrivals file t size h = cc
transfer_from-complete (suc fuel) stops gaps arrivals file t size h =
    let block = take t.block_size file in
    let v = receive_all (gaps fuel) t in
    let r = handle_data_block (arrivals fuel) block v in
    let f = gap_Fixed (gaps fuel) t in
    let same = (round_Sent (arrivals fuel) block v).0 ∙ f in
    elim (Bool-cases (stops fuel)) [
      | inl halt ↦ ground (arith, halt, h)
      | inr runs ↦ elim (Bool-cases r.1) [
        | inl goes ↦
            let later =
              transfer_from-complete fuel stops gaps arrivals (drop t.block_size file) r.0
                (omega (arith, same)) (ground (arith, runs, goes, h)) in
            ground (
              arith,
              runs,
              goes,
              round_payloads (arrivals fuel) block v
                    (transfer_from fuel stops gaps arrivals (drop t.block_size file) r.0).acked
                    (round_goes (arrivals fuel) block v goes).0
                  ∙ whole block file (drop t.block_size file)
                      (payloads
                        (transfer_from fuel stops gaps arrivals (drop t.block_size file) r.0).acked)
                      (take-append-drop t.block_size file) later,
            )
        | inr ends ↦
            let ok : r.2 ≡ true = ground (arith, runs, ends, h) in
            let last =
              last_block t.block_size v.block_size file size f
                (round_ends (arrivals fuel) block v ends ok) in
            ground (
              arith,
              runs,
              ends,
              ok,
              append-nil (acknowledged r.2 r.0.current_packet),
              round_payloads (arrivals fuel) block v [] ok ∙ append-nil block ∙ last,
            )
      ]
    ]
