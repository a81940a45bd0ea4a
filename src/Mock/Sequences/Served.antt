-- ===== src/Mock/Sequences/Served.antt =====
-- bundled_addon.py: the steps that a counted sequence serves.
use jumpstarter.Common.{
  Option, ℕ, List, ◌<◌, String, get_elem?, ◌≡◌, ◌∷◌, [], ◌+◌, replicate, some, none, ap, refl, suc,
  ◌++◌, sym, zero, append-nil, ◌∙◌, replicate_first, if_both, arith, Bool-cases, ltb, inl, inr,
  ltb→lt, false, ◌-◌, replicate_then, dict_get-set,
}
use jumpstarter.Mock.Sequences.{
  SequenceStep, Progress, num_calls, handle_sequence_counted, counted_step, or_last_step, step_at,
  serves, or_zero, counted, last_step, no_progress,
}

lt_of_sum : (k i c position : ℕ) → c < position + k → c ≡ position + i → i < k
lt_of_sum k i c position h e = omega (arith, h, e)

from_sum :
    (k i c position : ℕ) → c ≡ position + i → ltb c (position + k) ≡ false → (j : ℕ) × (i ≡ k + j)
from_sum k i c position e late = (i - k, ground (arith, e, late))

module _ {A : Type 0} where
  abbrev pub shown : ℕ → Option ℕ → SequenceStep A → List (SequenceStep A) → List (SequenceStep A)
  shown n none s later = replicate n s
  shown n (some times) s later = replicate times s ++ later

  -- The steps of the first n requests, written out: each as often as it says, the last one for ever.
  abbrev pub script : ℕ → List (SequenceStep A) → List (SequenceStep A)
  script n [] = []
  script n (s ∷ []) = replicate n s
  script n (s ∷ t ∷ rest) = shown n s.repeat s (script n (t ∷ rest))

  -- So many requests for one key, one after another.
  abbrev pub serve_all :
      ℕ → String → List (SequenceStep A) → Progress → List (Option (SequenceStep A)) × Progress
  unfolding handle_sequence_counted counted_step
  serve_all zero key sequence s = ([], s)
  serve_all (suc n) key sequence s =
      let (step, s') = handle_sequence_counted key sequence s in
      let (steps, s'') = serve_all n key sequence s' in (step ∷ steps, s'')

  replicate_at : (n i : ℕ) (x : SequenceStep A) → i < n → get_elem? (replicate n x) i ≡ some x
  replicate_at n i x h =
      ap (λ xs. get_elem? xs i) (sym (append-nil (replicate n x))) ∙ replicate_first n i x [] h

  last_only :
      (o : Option (SequenceStep A)) (s t : SequenceStep A) (rest : List (SequenceStep A))
      → or_last_step o (s ∷ t ∷ rest) ≡ or_last_step o (t ∷ rest)
  last_only none s t rest = refl
  last_only (some x) s t rest = refl

  one_step :
      (repeat : Option ℕ) (s : SequenceStep A) (c position : ℕ)
      → or_last_step (serves c position repeat s none) (s ∷ []) ≡ some s
  one_step none s c position = refl
  one_step (some k) s c position =
      if_both (λ (o : Option (SequenceStep A)). or_last_step o (s ∷ []) ≡ some s)
        (ltb c (position + k)) refl refl

  serves_lem :
      (repeat : Option ℕ) (n i c position : ℕ) (s : SequenceStep A)
      (later : Option (SequenceStep A)) (whole xs : List (SequenceStep A))
      → i < n
      → c ≡ position + i
      → ((j : ℕ) → i ≡ or_zero repeat + j → or_last_step later whole ≡ get_elem? xs j)
      → or_last_step (serves c position repeat s later) whole ≡ get_elem? (shown n repeat s xs) i
  serves_lem none n i c position s later whole xs h e rest = sym (replicate_at n i s h)
  serves_lem (some k) n i c position s later whole xs h e rest =
      elim (Bool-cases (ltb c (position + k))) [
        | inl early ↦ rw early (
            sym (
              replicate_first k i s xs
                (lt_of_sum k i c position (ltb→lt c (position + k) early) e)))
        | inr late ↦
            let (j, split) = from_sum k i c position e late in
            rw (late, split) (rest j split ∙ sym (replicate_then k j s xs))
      ]

  step_at-script :
      (n i c position : ℕ) (sequence : List (SequenceStep A))
      → i < n
      → c ≡ position + i
      → or_last_step (step_at c position sequence) sequence ≡ get_elem? (script n sequence) i
  step_at-script n i c position [] h e = refl
  step_at-script n i c position (s ∷ []) h e =
      one_step s.repeat s c position ∙ sym (replicate_at n i s h)
  step_at-script n i c position (s ∷ t ∷ rest) h e =
      serves_lem s.repeat n i c position s (step_at c (position + or_zero s.repeat) (t ∷ rest))
        (s ∷ t ∷ rest) (script n (t ∷ rest)) h e
        (λ j split.
          last_only (step_at c (position + or_zero s.repeat) (t ∷ rest)) s t rest
          ∙ step_at-script n j c (position + or_zero s.repeat) (t ∷ rest) (omega (arith, h, split))
              (omega (arith, e, split)))

  -- The last step of a sequence with steps, and so the step that is served, is there.
  last_there :
      (s : SequenceStep A) (rest : List (SequenceStep A))
      → (x : SequenceStep A) × (last_step (s ∷ rest) ≡ some x)
  last_there s [] = (s, refl)
  last_there s (t ∷ rest) = last_there t rest

  pub step_there :
      (o : Option (SequenceStep A)) (s : SequenceStep A) (rest : List (SequenceStep A))
      → (x : SequenceStep A) × (or_last_step o (s ∷ rest) ≡ some x)
  step_there none s rest = last_there s rest
  step_there (some x) s rest = (x, refl)

  pub counted_served :
      (key : String) (o : Option (SequenceStep A)) (s : Progress) → (counted key o s).0 ≡ o
  counted_served key none s = refl
  counted_served key (some x) s = refl

  pub counted_calls :
      (key : String) (x : SequenceStep A) (o : Option (SequenceStep A)) (s : Progress)
      → o ≡ some x
      → num_calls key (counted key o s).1 ≡ num_calls key s + 1
  counted_calls key x o s e =
      rw e (ap or_zero (dict_get-set key (num_calls key s + 1) s.sequence_state))

  serve_all-counted :
      (n i : ℕ) (key : String) (first : SequenceStep A) (rest : List (SequenceStep A))
      (s : Progress)
      → i < n
      → get_elem? (serve_all n key (first ∷ rest) s).0 i
        ≡ some (counted_step (num_calls key s + i) (first ∷ rest))
  unfolding handle_sequence_counted counted_step
  serve_all-counted zero i key first rest s h = absurd (omega (arith, h))
  serve_all-counted (suc n) zero key first rest s h =
      let now : num_calls key s + 0 ≡ num_calls key s = omega arith in
      ap some (
        counted_served key (counted_step (num_calls key s) (first ∷ rest)) s
        ∙ ap (λ c. counted_step c (first ∷ rest)) (sym now))
  serve_all-counted (suc n) (suc i) key first rest s h =
      let (x, there_is) = step_there (step_at (num_calls key s) 0 (first ∷ rest)) first rest in
      let s' = (handle_sequence_counted key (first ∷ rest) s).1 in
      let one_more =
        counted_calls key x (counted_step (num_calls key s) (first ∷ rest)) s there_is in
      let moved : num_calls key s' + i ≡ num_calls key s + suc i = omega (arith, one_more) in
      serve_all-counted n i key first rest s' (omega (arith, h))
      ∙ ap (λ c. some (counted_step c (first ∷ rest))) moved

  no_steps :
      (n i : ℕ) (key : String) (s : Progress)
      → i < n
      → get_elem? (serve_all n key [] s).0 i ≡ some none
  unfolding handle_sequence_counted counted_step
  no_steps zero i key s h = absurd (omega (arith, h))
  no_steps (suc n) zero key s h = refl
  no_steps (suc n) (suc i) key s h = no_steps n i key s (omega (arith, h))

  -- Of n requests for one key, one after another and from the start, the i-th is served the i-th
  -- step of the sequence written out, and an error where the sequence is empty.
  pub serve_all-script :
      (n i : ℕ) (key : String) (sequence : List (SequenceStep A))
      → i < n
      → get_elem? (serve_all n key sequence no_progress).0 i
        ≡ some (get_elem? (script n sequence) i)
  unfolding counted_step
  serve_all-script n i key [] h = no_steps n i key no_progress h
  serve_all-script n i key (first ∷ rest) h =
      serve_all-counted n i key first rest no_progress h
      ∙ ap some (step_at-script n i (0 + i) 0 (first ∷ rest) h refl)
