-- ===== src/Exporter/Streams/Forwards.antt =====
-- What a retried stream passes on, and when it is given up.
use jumpstarter.Exporter.Streams.{
  Opening, stream_from, StreamEnd, fails, after_opening, finishes, StreamRun, after_failure,
  retry_stream, retry_delay, prefixed, reset,
}
use jumpstarter.Common.{
  ℕ, List, ◌∷◌, ◌≡◌, Bool, ◌++◌, ◌≤◌, starts_run, [], suc, true, refl, false, ◌||◌, arith, zero,
  ◌<◌, String, ◌∙◌, starts_run_less, ◌-◌, ap, ◌&&◌, append_assoc,
}

-- An opening that fails before any item.
abbrev pub fruitless_end : {A : Type 0} → List A → StreamEnd → Bool
fruitless_end [] (fails e) = true
fruitless_end (x ∷ xs) (fails e) = false
fruitless_end items finishes = false

abbrev pub is_fruitless : {A : Type 0} → Opening A → Bool
is_fruitless o = fruitless_end o.items o.ends

abbrev pub has_failed : StreamEnd → Bool
has_failed (fails e) = true
has_failed finishes = false

-- Somewhere an opening fails, and as many as `retries` after it fail with no item.
abbrev pub gives_up : {A : Type 0} → ℕ → List (Opening A) → Bool
gives_up retries [] = false
gives_up retries (o ∷ os) =
    let rest = gives_up retries os in
    has_failed o.ends && starts_run is_fruitless retries os || rest

-- The items of all openings.
abbrev pub all_items : {A : Type 0} → List (Opening A) → List A
all_items [] = []
all_items (o ∷ os) = o.items ++ all_items os

abbrev pub is_empty : {A : Type 0} → List A → Bool
is_empty [] = true
is_empty (x ∷ xs) = false

module _ {A : Type 0} (retries backoff : ℕ) where
  -- Whether the loop raises, with `left` retries.
  abbrev will_raise : ℕ → List (Opening A) → Bool
  will_raise left os = starts_run is_fruitless (suc left) os || gives_up retries os

  will_raise_cons :
      (items : List A) (end : StreamEnd) (os : List (Opening A))
      → will_raise retries (record { items = items; ends = end } ∷ os)
        ≡ gives_up retries (record { items = items; ends = end } ∷ os)
  will_raise_cons [] finishes os = refl
  will_raise_cons (x ∷ xs) finishes os = refl
  will_raise_cons [] (fails e) os = ground arith
  will_raise_cons (x ∷ xs) (fails e) os = refl

  will_raise_first : (os : List (Opening A)) → will_raise retries os ≡ gives_up retries os
  will_raise_first [] = refl
  will_raise_first (o ∷ os) = will_raise_cons o.items o.ends os

  failure_raised :
      (left : ℕ) (items : List A) (e : String) (again : ℕ → StreamRun A)
      → 0 < left
      → (after_failure retries backoff items e left again).raised ≡ (again (left - 1)).raised
  failure_raised zero items e again h = absurd (omega arith)
  failure_raised (suc left) items e again h = ap (λ l. (again l).raised) (omega arith)

  by_end :
      (items : List A) (end : StreamEnd) (os : List (Opening A)) (left : ℕ)
      → 0 < retries
      → left ≤ retries
      → ((l : ℕ) → l ≤ retries → (stream_from retries backoff os l).raised ≡ will_raise l os)
      → (after_opening retries backoff items end left (stream_from retries backoff os)).raised
        ≡ will_raise left (record { items = items; ends = end } ∷ os)
  by_end [] finishes os left some_left h rest = rest retries (omega arith) ∙ will_raise_first os
  by_end (x ∷ xs) finishes os left some_left h rest =
      rest retries (omega arith) ∙ will_raise_first os
  by_end [] (fails e) os zero some_left h rest = refl
  by_end [] (fails e) os (suc left) some_left h rest =
      rest left (omega arith)
      ∙ ground (arith, starts_run_less is_fruitless (suc left) retries os (omega arith))
  by_end (x ∷ xs) (fails e) os left some_left h rest =
      let more : suc (retries - 1) ≡ retries = omega arith in
      failure_raised retries (x ∷ xs) e (stream_from retries backoff os) some_left
      ∙ rest (retries - 1) (omega arith)
      ∙ ap (λ m. starts_run is_fruitless m os || gives_up retries os) more

  raised-will_raise :
      (os : List (Opening A)) (left : ℕ)
      → 0 < retries
      → left ≤ retries
      → (stream_from retries backoff os left).raised ≡ will_raise left os
  unfolding stream_from
  raised-will_raise [] left some_left h = refl
  raised-will_raise (o ∷ os) left some_left h =
      by_end o.items o.ends os left some_left h (λ l. raised-will_raise os l some_left)

  -- Of some items, what a run has sent on is all, or a beginning if it raised.
  abbrev Kept : StreamRun A → List A → Type 0
  Kept run items =
      (rest : List A) × (run.sent ++ rest ≡ items) × ((run.raised || is_empty rest) ≡ true)

  prefixed-Kept :
      (items all : List A) (delay : ℕ) (run : StreamRun A)
      → Kept run all
      → Kept (prefixed items delay run) (items ++ all)
  prefixed-Kept items all delay run k =
      (k.0, append_assoc items run.sent k.0 ∙ ap (λ ys. items ++ ys) k.1, k.2)

  failure-Kept :
      (items all : List A) (e : String) (left : ℕ) (again : ℕ → StreamRun A)
      → ((l : ℕ) → Kept (again l) all)
      → Kept (after_failure retries backoff items e left again) (items ++ all)
  failure-Kept items all e zero again k = (all, refl, refl)
  failure-Kept items all e (suc left) again k =
      prefixed-Kept items all (retry_delay backoff e) (again left) (k left)

  opening-Kept :
      (items all : List A) (end : StreamEnd) (left : ℕ) (again : ℕ → StreamRun A)
      → ((l : ℕ) → Kept (again l) all)
      → Kept (after_opening retries backoff items end left again) (items ++ all)
  opening-Kept items all finishes left again k =
      prefixed-Kept items all 0 (again retries) (k retries)
  opening-Kept items all (fails e) left again k =
      failure-Kept items all e (reset retries items left) again k

  sent_all :
      (os : List (Opening A)) (left : ℕ) → Kept (stream_from retries backoff os left) (all_items os)
  unfolding stream_from
  sent_all [] left = ([], refl, refl)
  sent_all (o ∷ os) left =
      opening-Kept o.items (all_items os) o.ends left (stream_from retries backoff os) (sent_all os)

-- A retried stream with at least one retry: it raises exactly when some opening fails and as many as
-- the retries after it fail with no item; and what it has sent on is the items of its openings, in
-- their order: all of them, or, where it raised, a beginning of them.
pub retry_stream-forwards :
    {A : Type 0} (retries backoff : ℕ) (os : List (Opening A))
    → 0 < retries
    → ((retry_stream retries backoff os).raised ≡ gives_up retries os)
      × (rest : List A) × ((retry_stream retries backoff os).sent ++ rest ≡ all_items os)
      × (((retry_stream retries backoff os).raised || is_empty rest) ≡ true)
unfolding retry_stream
retry_stream-forwards retries backoff os some_left =
    let sent = sent_all retries backoff os retries in
    (
      raised-will_raise retries backoff os retries some_left (omega arith)
          ∙ will_raise_first retries backoff os,
      sent.0,
      sent.1,
      sent.2,
    )
