-- ===== src/Mock/Sequences/Timing.antt =====
-- bundled_addon.py: the step that a sequence with delays serves.
use jumpstarter.Common.{
  ℕ, List, ◌∷◌, ◌≡◌, Bool, [], true, false, if◌then◌else◌, refl, Bool-cases, leb, inl, arith, ◌&&◌,
  of_both, inr, String, dict_get, none, some, ap, dict_set, dict_get-set, ◌∙◌,
}
use jumpstarter.Mock.Sequences.{
  SequenceStep, Progress, or_zero, is_elapsed, active, handle_sequence_timed, start_at, started_at,
}

first_start :
    (key : String) (t0 : ℕ) (s : Progress)
    → dict_get key s.sequence_start ≡ none
    → (start_at key t0 s).sequence_start ≡ dict_set key t0 s.sequence_start
first_start key t0 s h = rw h refl

started_first :
    (key : String) (t0 now : ℕ) (s : Progress)
    → dict_get key s.sequence_start ≡ none
    → started_at key (start_at key now (start_at key t0 s)) ≡ t0
started_first key t0 now s h =
    rw (first_start key t0 s h, dict_get-set key t0 s.sequence_start)
      (ap or_zero (dict_get-set key t0 s.sequence_start))

module _ {A : Type 0} where
  abbrev pub in_order : SequenceStep A → List (SequenceStep A) → Bool
  in_order s [] = true
  in_order s (t ∷ rest) =
      let later = in_order t rest in leb (or_zero s.delay_ms) (or_zero t.delay_ms) && later

  -- The steps whose delay has elapsed, wherever they stand.
  abbrev pub elapsed_steps : ℕ → ℕ → List (SequenceStep A) → List (SequenceStep A)
  elapsed_steps start now [] = []
  elapsed_steps start now (s ∷ rest) =
      let later = elapsed_steps start now rest in
      if is_elapsed start now s then s ∷ later else later

  abbrev pub last_or : SequenceStep A → List (SequenceStep A) → SequenceStep A
  last_or s [] = s
  last_or s (t ∷ rest) = last_or t rest

  not_yet :
      (start now : ℕ) (s t : SequenceStep A)
      → is_elapsed start now s ≡ false
      → leb (or_zero s.delay_ms) (or_zero t.delay_ms) ≡ true
      → is_elapsed start now t ≡ false
  not_yet start now s t h g = ground (arith, h, g)

  none_elapsed :
      (start now : ℕ) (s : SequenceStep A) (rest : List (SequenceStep A))
      → is_elapsed start now s ≡ false
      → in_order s rest ≡ true
      → elapsed_steps start now rest ≡ []
  none_elapsed start now s [] h o = refl
  none_elapsed start now s (t ∷ rest) h o =
      let (first, later) =
        of_both (leb (or_zero s.delay_ms) (or_zero t.delay_ms)) (in_order t rest) o in
      let waits = not_yet start now s t h first in
      rw waits (none_elapsed start now t rest waits later)

  active_rest :
      (start now : ℕ) (s : SequenceStep A) (rest : List (SequenceStep A))
      → in_order s rest ≡ true
      → active start now s rest ≡ last_or s (elapsed_steps start now rest)
  active_rest start now s [] o = refl
  active_rest start now s (t ∷ rest) o =
      let (first, later) =
        of_both (leb (or_zero s.delay_ms) (or_zero t.delay_ms)) (in_order t rest) o in
      elim (Bool-cases (is_elapsed start now t)) [
        | inl e ↦ rw e (active_rest start now t rest later)
        | inr e ↦ rw e (rw (none_elapsed start now t rest e later) refl)
      ]

  active-last :
      (start now : ℕ) (current s : SequenceStep A) (rest : List (SequenceStep A))
      → in_order s rest ≡ true
      → active start now current (s ∷ rest) ≡ last_or current (elapsed_steps start now (s ∷ rest))
  active-last start now current s rest o = elim (Bool-cases (is_elapsed start now s)) [
    | inl e ↦ rw e (active_rest start now s rest o)
    | inr e ↦ rw e (rw (none_elapsed start now s rest e o) refl)
  ]

  -- The first request for a key records the time. Where the delays of the steps do not descend, a
  -- request for it at any time is then served the latest of the steps whose delay has elapsed since,
  -- and the first step where none has.
  pub handle_sequence_timed-elapsed :
      (t0 now : ℕ) (key : String) (first : SequenceStep A) (rest : List (SequenceStep A))
      (s : Progress)
      → dict_get key s.sequence_start ≡ none
      → in_order first rest ≡ true
      → (handle_sequence_timed now key
          (first ∷ rest)
          (handle_sequence_timed t0 key (first ∷ rest) s).1).0
        ≡ some (last_or first (elapsed_steps t0 now (first ∷ rest)))
  unfolding handle_sequence_timed
  handle_sequence_timed-elapsed t0 now key first rest s h o =
      ap (λ u. some (active u now first (first ∷ rest))) (started_first key t0 now s h)
      ∙ ap some (active-last t0 now first first rest o)
