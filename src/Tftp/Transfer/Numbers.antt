-- ===== src/Tftp/Transfer/Numbers.antt =====
-- The acknowledged packets of a transfer are DATA packets, numbered one after the other.
use mathlib.Core.Path.{subst}
use jumpstarter.Tftp.{Bytes, opcode_of, from_bytes2, data_op}
use jumpstarter.Tftp.Wire.{data_packet-read}
use jumpstarter.Tftp.Transfer.{
  Transfer, Datagram, handle_data_block, transfer_from, receive_all, acknowledged,
}
use jumpstarter.Tftp.Transfer.Acks.{receive_all-Fixed}
use jumpstarter.Tftp.Transfer.Blocks.{round_packet, round_goes}
use jumpstarter.Common.{
  ℕ, zero, suc, ◌≡◌, true, some, List, [], ◌∷◌, ◌++◌, ◌+◌, ◌%◌, ◌<◌, arith, append-nil, take, drop,
  Bool-cases, inl, inr, false, Bool,
}

-- DATA packets whose block numbers go on from a number, with 0 after 65535.
abbrev pub Numbered : ℕ → List Bytes → Type 0
Numbered n [] = Unit {0}
Numbered n (p ∷ ps) =
    (opcode_of (from_bytes2 p) ≡ some data_op)
    × (from_bytes2 (drop 2 p) ≡ n)
    × Numbered ((n + 1) % 65536) ps

round_Numbered :
    (arrivals : ℕ → List Datagram) (block : Bytes) (t : Transfer) (ps : List Bytes)
    → t.block_num < 65536
    → ((handle_data_block arrivals block t).2 ≡ true → Numbered ((t.block_num + 1) % 65536) ps)
    → ((handle_data_block arrivals block t).2 ≡ false → Numbered t.block_num ps)
    → Numbered t.block_num (
        acknowledged
          (handle_data_block arrivals block t).2
          (handle_data_block arrivals block t).0.current_packet
        ++ ps)
round_Numbered arrivals block t ps h rest none_acked =
    let read = data_packet-read t.block_num block h in
    elim (Bool-cases (handle_data_block arrivals block t).2) [
      | inl ok ↦ rw (ok, round_packet arrivals block t) (read.0, read.1, rest ok)
      | inr lost ↦ rw lost (none_acked lost)
    ]

-- Whatever arrives and whenever the server stops: the packets that were acknowledged are DATA
-- packets with the block numbers from the first one on.
pub transfer_from-Numbered :
    (fuel : ℕ) (stops : ℕ → Bool) (gaps : ℕ → List Datagram) (arrivals : ℕ → ℕ → List Datagram)
    (file : Bytes) (t : Transfer)
    → t.block_num < 65536
    → Numbered t.block_num (transfer_from fuel stops gaps arrivals file t).acked
unfolding transfer_from
transfer_from-Numbered zero stops gaps arrivals file t h = record {}
transfer_from-Numbered (suc fuel) stops gaps arrivals file t h =
    let block = take t.block_size file in
    let v = receive_all (gaps fuel) t in
    let same = (receive_all-Fixed (gaps fuel) t).block_num in
    let r = handle_data_block (arrivals fuel) block v in
    let rest = transfer_from fuel stops gaps arrivals (drop t.block_size file) r.0 in
    let small : v.block_num < 65536 = omega (arith, h, same) in
    elim (Bool-cases (stops fuel)) [
      | inl halt ↦ rw halt (record {})
      | inr runs ↦ elim (Bool-cases r.1) [
        | inl goes ↦
            let g = round_goes (arrivals fuel) block v goes in
            let later =
              transfer_from-Numbered fuel stops gaps arrivals (drop t.block_size file) r.0
                (omega (arith, g.2)) in
            rw (runs, goes)
              (subst (λ n. Numbered n (acknowledged r.2 r.0.current_packet ++ rest.acked)) same
                (round_Numbered (arrivals fuel) block v rest.acked small
                  (λ _. subst (λ n. Numbered n rest.acked) g.2 later)
                  (λ lost. absurd (ground (arith, lost, g.0)))))
        | inr ends ↦
            rw (runs, ends)
              (subst (λ ps. Numbered t.block_num ps)
                (append-nil (acknowledged r.2 r.0.current_packet))
                (subst (λ n. Numbered n (acknowledged r.2 r.0.current_packet ++ [])) same
                  (round_Numbered (arrivals fuel) block v [] small (λ _. record {})
                    (λ _. record {}))))
      ]
    ]
