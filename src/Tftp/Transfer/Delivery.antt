-- ===== src/Tftp/Transfer/Delivery.antt =====
-- A client that acknowledges is served the whole file.
use mathlib.Core.Path.{subst}
use jumpstarter.Tftp.Transfer.Sends.{confirmed_all}
use jumpstarter.Tftp.Transfer.{handle_data_block}
use jumpstarter.Tftp.Transfer.Sends.{confirmed_all}
use jumpstarter.Tftp.Transfer.Blocks.{
  payloads, transfer_from-complete, round_Sent, round_hears, round_goes,
}
use jumpstarter.Tftp.Transfer.Acks.{SomeAck, receive_all-Fixed}
use jumpstarter.Tftp.Transfer.Numbers.{Numbered, transfer_from-Numbered}
use jumpstarter.Tftp.Transfer.Log.{AllSent, transfer_from-AllSent}
use jumpstarter.Tftp.{Bytes}
use jumpstarter.Common.{
  ℕ, List, ◌≡◌, suc, length, ◌<◌, ◌*◌, true, ◌≤◌, ◌+◌, ◌%◌, take, false, arith, zero, drop,
  length-drop, length-take, sym, Bool-cases, inr, inl, ◌∙◌, ap,
}
use jumpstarter.Tftp.Transfer.{transfer_from, Datagram, Transfer, receive_all}

-- In each round some attempt hears the acknowledgement of its block, the first being `n`.
abbrev pub Honest : ℕ → ℕ → (ℕ → ℕ → List Datagram) → ℕ → Type 0
Honest zero retries arrivals n = Unit {0}
Honest (suc fuel) retries arrivals n =
    ((k : ℕ) × (k < retries) × SomeAck n (arrivals fuel k))
    × Honest fuel retries arrivals ((n + 1) % 65536)

fewer :
    (fuel n m : ℕ) (file : Bytes)
    → m ≡ n
    → length file < suc fuel * n
    → n ≤ length (take n file)
    → length (drop n file) < fuel * m
fewer fuel n m file e rounds full = rw e (omega (arith, length-drop n file, length-take n file))

completes :
    (fuel : ℕ) (gaps : ℕ → List Datagram) (arrivals : ℕ → ℕ → List Datagram) (file : Bytes)
    (t : Transfer)
    → 0 < t.block_size
    → length file < fuel * t.block_size
    → t.oack_confirmed ≡ true
    → Honest fuel t.retries arrivals t.block_num
    → (transfer_from fuel (λ _. false) gaps arrivals file t).complete ≡ true
unfolding transfer_from
completes zero gaps arrivals file t size rounds settled honest = absurd (omega arith)
completes (suc fuel) gaps arrivals file t size rounds settled honest =
    let block = take t.block_size file in
    let v = receive_all (gaps fuel) t in
    let f = receive_all-Fixed (gaps fuel) t in
    let c = confirmed_all (gaps fuel) t settled in
    let r = handle_data_block (arrivals fuel) block v in
    let sent = round_Sent (arrivals fuel) block v in
    let heard =
      round_hears (arrivals fuel) block v honest.0.0 c (omega (arith, honest.0.1, f.retries))
        (subst (λ n. SomeAck n (arrivals fuel honest.0.0)) (sym f.block_num) honest.0.2) in
    elim (Bool-cases r.1) [
      | inr ends ↦ ground (arith, ends, heard)
      | inl goes ↦
          let g = round_goes (arrivals fuel) block v goes in
          let same = sent.0 ∙ f.block_size in
          let next =
            completes fuel gaps arrivals (drop t.block_size file) r.0 (omega (arith, same))
              (fewer fuel t.block_size r.0.block_size file same rounds
                (omega (arith, g.1, f.block_size)))
              (sent.2 c)
              (subst (λ m. Honest fuel m arrivals r.0.block_num) (sym (sent.1 ∙ f.retries))
                (subst (λ n. Honest fuel t.retries arrivals n)
                  (sym (g.2 ∙ ap (λ n. (n + 1) % 65536) f.block_num)) honest.1)) in
          ground (arith, goes, next)
    ]

-- A transfer that is not shut down, with its OACK settled, a positive block size and a block number
-- of 16 bits, to a client that acknowledges each block in some attempt to send it, whatever else
-- arrives: with more rounds than full blocks in the file, it completes, the packets that were
-- acknowledged are among the datagrams sent, they are DATA packets numbered one after the other,
-- with 0 after 65535, and what they carry behind their heads is the file, in order.
pub transfer_from-delivers :
    (fuel : ℕ) (gaps : ℕ → List Datagram) (arrivals : ℕ → ℕ → List Datagram) (file : Bytes)
    (t : Transfer)
    → 0 < t.block_size
    → t.block_num < 65536
    → length file < fuel * t.block_size
    → t.oack_confirmed ≡ true
    → Honest fuel t.retries arrivals t.block_num
    → let r = transfer_from fuel (λ _. false) gaps arrivals file t in
      (r.complete ≡ true)
      × AllSent r.acked r.final.sent
      × Numbered t.block_num r.acked
      × (payloads r.acked ≡ file)
transfer_from-delivers fuel gaps arrivals file t size number rounds settled honest =
    let done = completes fuel gaps arrivals file t size rounds settled honest in
    (
      done,
      transfer_from-AllSent fuel (λ _. false) gaps arrivals file t,
      transfer_from-Numbered fuel (λ _. false) gaps arrivals file t number,
      transfer_from-complete fuel (λ _. false) gaps arrivals file t size done,
    )
