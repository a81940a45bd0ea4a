-- ===== src/Tftp/Transfer/Log.antt =====
-- The acknowledged packets of a transfer are among the datagrams that it has sent.
use mathlib.Core.Path.{subst}
use jumpstarter.Tftp.{Bytes, data_packet}
use jumpstarter.Tftp.Transfer.{
  send_with_retries, Transfer, Datagram, Result, handle_data_block, transfer_from, receive_all,
  acknowledged,
}
use jumpstarter.Tftp.Transfer.Packets.{
  Extends, Sends, Sends-Extends, Extends-trans, Extends-refl, receive_all-Extends,
  send_with_retries-Attempted,
}
use jumpstarter.Tftp.Transfer.Blocks.{round_packet}
use jumpstarter.Common.{
  ℕ, zero, suc, ◌≡◌, Bool, true, false, not, List, [], ◌∷◌, ◌++◌, arith, if_both, append-nil, take,
  drop, Bool-cases, inl, inr,
}

abbrev pub AllSent : List Bytes → List Bytes → Type 0
AllSent [] log = Unit {0}
AllSent (p ∷ ps) log = Sends p log × AllSent ps log

module _ (arrivals : ℕ → List Datagram) where
  round_Extends :
      (block : Bytes) (t : Transfer) → Extends t.sent (handle_data_block arrivals block t).0.sent
  unfolding handle_data_block
  round_Extends [] t =
      (send_with_retries-Attempted arrivals (data_packet t.block_num []) false t).more
  round_Extends (b ∷ bs) t =
      let r = send_with_retries-Attempted arrivals (data_packet t.block_num (b ∷ bs)) false t in
      if_both (λ (x : Transfer × Bool × Bool). Extends t.sent x.0.sent)
        (not (send_with_retries arrivals (data_packet t.block_num (b ∷ bs)) false t).1) r.more
        r.more

  round_Sends :
      (block : Bytes) (t : Transfer)
      → (handle_data_block arrivals block t).2 ≡ true
      → Sends (data_packet t.block_num block) (handle_data_block arrivals block t).0.sent
  unfolding handle_data_block
  round_Sends [] t h =
      (send_with_retries-Attempted arrivals (data_packet t.block_num []) false t).sends h
  round_Sends (b ∷ bs) t h =
      let r = send_with_retries-Attempted arrivals (data_packet t.block_num (b ∷ bs)) false t in
      let ok : (send_with_retries arrivals (data_packet t.block_num (b ∷ bs)) false t).1 ≡ true =
        ground (arith, h) in
      if_both (λ (x : Transfer × Bool × Bool). Sends (data_packet t.block_num (b ∷ bs)) x.0.sent)
        (not (send_with_retries arrivals (data_packet t.block_num (b ∷ bs)) false t).1) (r.sends ok)
        (r.sends ok)

  round_AllSent :
      (block : Bytes) (t : Transfer) (ps log : List Bytes)
      → Extends (handle_data_block arrivals block t).0.sent log
      → AllSent ps log
      → AllSent
          (acknowledged
              (handle_data_block arrivals block t).2
              (handle_data_block arrivals block t).0.current_packet
            ++ ps)
          log
  round_AllSent block t ps log e rest = elim (Bool-cases (handle_data_block arrivals block t).2) [
    | inl ok ↦
        rw (ok, round_packet arrivals block t) (Sends-Extends (round_Sends block t ok) e, rest)
    | inr lost ↦ rw lost rest
  ]

transfer_from-Extends :
    (fuel : ℕ) (stops : ℕ → Bool) (gaps : ℕ → List Datagram) (arrivals : ℕ → ℕ → List Datagram)
    (file : Bytes) (t : Transfer)
    → Extends t.sent (transfer_from fuel stops gaps arrivals file t).final.sent
unfolding transfer_from
transfer_from-Extends zero stops gaps arrivals file t = Extends-refl t.sent
transfer_from-Extends (suc fuel) stops gaps arrivals file t =
    let block = take t.block_size file in
    let v = receive_all (gaps fuel) t in
    let r = handle_data_block (arrivals fuel) block v in
    let first =
      Extends-trans (receive_all-Extends (gaps fuel) t) (round_Extends (arrivals fuel) block v) in
    let later = transfer_from-Extends fuel stops gaps arrivals (drop t.block_size file) r.0 in
    if_both (λ (x : Result). Extends t.sent x.final.sent) (stops fuel) (Extends-refl t.sent)
      (if_both (λ (x : Result). Extends t.sent x.final.sent) r.1 (Extends-trans first later) first)

-- Whatever arrives and whenever the server stops: each packet that was acknowledged has been sent.
pub transfer_from-AllSent :
    (fuel : ℕ) (stops : ℕ → Bool) (gaps : ℕ → List Datagram) (arrivals : ℕ → ℕ → List Datagram)
    (file : Bytes) (t : Transfer)
    → let r = transfer_from fuel stops gaps arrivals file t in AllSent r.acked r.final.sent
unfolding transfer_from
transfer_from-AllSent zero stops gaps arrivals file t = record {}
transfer_from-AllSent (suc fuel) stops gaps arrivals file t =
    let block = take t.block_size file in
    let v = receive_all (gaps fuel) t in
    let r = handle_data_block (arrivals fuel) block v in
    let rest = transfer_from fuel stops gaps arrivals (drop t.block_size file) r.0 in
    let later = transfer_from-AllSent fuel stops gaps arrivals (drop t.block_size file) r.0 in
    let grows = transfer_from-Extends fuel stops gaps arrivals (drop t.block_size file) r.0 in
    if_both (λ (x : Result). AllSent x.acked x.final.sent) (stops fuel) (record {})
      (if_both (λ (x : Result). AllSent x.acked x.final.sent) r.1
        (round_AllSent (arrivals fuel) block v rest.acked rest.final.sent grows later)
        (subst (λ ps. AllSent ps r.0.sent) (append-nil (acknowledged r.2 r.0.current_packet))
          (round_AllSent (arrivals fuel) block v [] r.0.sent (Extends-refl r.0.sent) (record {}))))
