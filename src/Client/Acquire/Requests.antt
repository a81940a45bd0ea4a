-- ===== src/Client/Acquire/Requests.antt =====
-- What a request that acquires a lease rests on.
use jumpstarter.Client.Acquire.Decides.{Found, acquire_from-Found}
use jumpstarter.Common.{
  ℕ, String, Option, ◌≡◌, some, ◌⊎◌, inl, arith, none, false, Bool-cases, refl, is_some, inr,
}
use jumpstarter.Client.Acquire.{
  Wanted, Controller, Poll, acquire_created, use_existing, request, created, acquired, Creation,
  LeaseInfo, got, other_owner, other_selector, get_fails, create_fails, request_named, has_name,
}

-- An existing lease that a request takes up: it has no end, and the owner and the selector are
-- those asked for, where any are.
pub record Usable (wanted : Wanted) (existing : Poll) (name : String) : Type 0 where
  pub named : wanted.name ≡ some name
  pub info : LeaseInfo
  pub found : existing ≡ got info
  pub live : info.effective_end_time ≡ none
  pub owned : other_owner wanted.client_name info.client ≡ false
  pub selected : other_selector wanted.selector info.selector ≡ false

-- Where the name of a lease comes from that is waited for: a creation, or the existing lease.
abbrev pub Origin : Controller → Wanted → Poll → String → Type 0
Origin c wanted existing name =
    ((asked : Option String) × (c.create 0 asked ≡ created name)) ⊎ Usable wanted existing name

module _ (polls : ℕ) (c : Controller) (wanted : Wanted) (n e : String) where
  -- What is told below.
  abbrev pub Rests : Poll → Type 0
  Rests existing = (name : String) × Origin c wanted existing name × Found polls 0 c name n e

  created-Rests :
      (existing : Poll) (asked : Option String) (creation : Creation)
      → c.create 0 asked ≡ creation
      → acquire_created polls c creation ≡ acquired n e
      → Rests existing
  unfolding acquire_created
  created-Rests existing asked (created name) m h =
      (name, inl (asked, m), acquire_from-Found c n e polls 0 name h)
  created-Rests existing asked create_fails m h = absurd (ground (arith, h))

  existing-Rests :
      (existing : Poll) (name : String)
      → wanted.name ≡ some name
      → use_existing polls c wanted name existing ≡ acquired n e
      → Rests existing
  unfolding use_existing
  existing-Rests get_fails name m h = absurd (ground (arith, h))
  existing-Rests (got info) name m h = elim (Bool-cases (is_some info.effective_end_time)) [
    | inl over ↦ absurd (ground (arith, over, h))
    | inr live ↦ elim (Bool-cases (other_owner wanted.client_name info.client)) [
      | inl foreign ↦ absurd (ground (arith, live, foreign, h))
      | inr owned ↦ elim (Bool-cases (other_selector wanted.selector info.selector)) [
        | inl differs ↦
            created-Rests (got info) none (c.create 0 none) refl
              (ground (arith, live, owned, differs, h))
        | inr same ↦ (
          name,
          inr (record {
            named = m;
            info = info;
            found = refl;
            live = ground (arith, live);
            owned = owned;
            selected = same;
          }),
          acquire_from-Found c n e polls 0 name (ground (arith, live, owned, same, h)),
        )
      ]
    ]
  ]

  has_name-named : (o : Option String) (name : String) → has_name o ≡ some name → o ≡ some name
  has_name-named o name h = ground (arith, h)

  named-Rests :
      (existing : Poll) (o : Option String)
      → has_name wanted.name ≡ o
      → request_named polls c wanted existing o ≡ acquired n e
      → Rests existing
  unfolding request_named
  named-Rests existing none m h = created-Rests existing wanted.name (c.create 0 wanted.name) refl h
  named-Rests existing (some name) m h =
      existing-Rests existing name (has_name-named wanted.name name m) h

  -- A request that ends with an acquired lease: some poll, one of those that there is time for,
  -- found the lease of that name ready with that exporter; and the name was that of the last
  -- creation of the lease, or, with no creation, that of an existing lease which has no end, and
  -- whose owner and selector are those that the client asked for.
  pub request-acquired :
      (existing : Poll) → request polls c wanted existing ≡ acquired n e → Rests existing
  unfolding request
  request-acquired existing h = named-Rests existing (has_name wanted.name) refl h
