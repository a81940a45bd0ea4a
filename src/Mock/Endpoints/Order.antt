-- ===== src/Mock/Endpoints/Order.antt =====
-- bundled_addon.py: the order of the candidates that `_find_endpoint` sorts.
use mathlib.Core.Path.{subst}
use mathlib.Core.Option.{none-ne-some, some-injective}
use jumpstarter.Common.{
  Bool, List, String, ◌&&◌, if◌then◌else◌, ◌++◌, ◌∷◌, ◌≡◌, false, true, dict_get, ◌⊎◌, [], inl,
  some, refl, arith, inr, ◌||◌, sym, Bool-cases, str_eq, str_eq_eq, ap, ◌∙◌,
}
use jumpstarter.Mock.Endpoints.{
  ℤ, Candidate, ltz, head_of, insert, sort, comes_before, Endpoint, pos, negsuc,
}

pub data In {A : Type 0} (a : A) : List A → Type 0 where
  here : {rest : List A} → In a (a ∷ rest)
  there : {b : A} {rest : List A} → In a rest → In a (b ∷ rest)

ltz_irrefl : (a : ℤ) → ltz a a ≡ false
ltz_irrefl (pos a) = ground arith
ltz_irrefl (negsuc a) = ground arith

ltz_asym : (a b : ℤ) → ltz a b ≡ true → ltz b a ≡ false
ltz_asym (pos a) (pos b) h = ground (arith, h)
ltz_asym (pos a) (negsuc b) h = ground (arith, h)
ltz_asym (negsuc a) (pos b) h = refl
ltz_asym (negsuc a) (negsuc b) h = ground (arith, h)

-- Not being less is transitive.
ltz_le_trans : (a b c : ℤ) → ltz a b ≡ false → ltz b c ≡ false → ltz a c ≡ false
ltz_le_trans (pos a) (pos b) (pos c) h g = ground (arith, h, g)
ltz_le_trans (pos a) (pos b) (negsuc c) h g = refl
ltz_le_trans (pos a) (negsuc b) (pos c) h g = absurd (ground (arith, g))
ltz_le_trans (pos a) (negsuc b) (negsuc c) h g = refl
ltz_le_trans (negsuc a) (pos b) c h g = absurd (ground (arith, h))
ltz_le_trans (negsuc a) (negsuc b) (pos c) h g = absurd (ground (arith, g))
ltz_le_trans (negsuc a) (negsuc b) (negsuc c) h g = ground (arith, h, g)

pub by_second : (a w b c : Bool) → w ≡ true → b ≡ true → (a || ((w && b) || c)) ≡ true
by_second a w b c h j = ground (arith, h, j)

pub third_and : (a b c d : Bool) → (c && d) ≡ true → ((a || (b || c)) && d) ≡ true
third_and a b c d h = ground (arith, h)

pub then_inv :
    {B : Type 0} (x c : B) (b : Bool) (later : List B)
    → In x (if b then c ∷ later else later)
    → ((b ≡ true) × (x ≡ c)) ⊎ In x later
then_inv x c true later here = inl (refl, refl)
then_inv x c true later (there i) = inr i
then_inv x c false later i = inr i

pub by_third : (a b c : Bool) → a ≡ false → b ≡ false → (a || (b || c)) ≡ true → c ≡ true
by_third a b c h j k = ground (arith, h, j, k)

module _ {A : Type 0} where
  before_irrefl : (c : Candidate A) → comes_before c c ≡ false
  before_irrefl (k, e) = ground (arith, ltz_irrefl e.priority)

  before_asym : (c d : Candidate A) → comes_before c d ≡ true → comes_before d c ≡ false
  before_asym (k, e) (l, f) h =
      ground (arith, h, ltz_asym e.priority f.priority, ltz_asym f.priority e.priority)

  before_trans :
      (c d x : Candidate A)
      → comes_before c d ≡ false
      → comes_before d x ≡ false
      → comes_before c x ≡ false
  before_trans (k, e) (l, f) (m, g) h j = ground (
    arith,
    h,
    j,
    ltz_le_trans g.priority f.priority e.priority,
    ltz_le_trans e.priority f.priority g.priority,
    ltz_le_trans f.priority e.priority g.priority,
    ltz_le_trans f.priority g.priority e.priority,
    ltz_asym g.priority f.priority,
  )

  In-if :
      (x c d : Candidate A) (b : Bool) (later ds : List (Candidate A))
      → (In x later → (x ≡ c) ⊎ In x ds)
      → In x (if b then d ∷ later else c ∷ d ∷ ds)
      → (x ≡ c) ⊎ In x (d ∷ ds)
  In-if x c d true later ds rest here = inr here
  In-if x c d true later ds rest (there j) = elim (rest j) [ inl e ↦ inl e | inr k ↦ inr (there k) ]
  In-if x c d false later ds rest here = inl refl
  In-if x c d false later ds rest (there j) = inr j

  pub then-In :
      (x c : Candidate A) (b : Bool) (later : List (Candidate A))
      → In x later
      → In x (if b then c ∷ later else later)
  then-In x c true later i = there i
  then-In x c false later i = i

  pub head-In : (d : Candidate A) (ds : List (Candidate A)) → head_of ds ≡ some d → In d ds
  head-In d [] e = absurd (none-ne-some d e)
  head-In d (c ∷ ds) e = subst (λ y. In y (c ∷ ds)) (some-injective c d e) here

  insert-In : (x c : Candidate A) (ds : List (Candidate A)) → In x (insert c ds) → (x ≡ c) ⊎ In x ds
  insert-In x c [] here = inl refl
  insert-In x c [] (there i) = elim i [ ]
  insert-In x c (d ∷ ds) i = In-if x c d (comes_before d c) (insert c ds) ds (insert-In x c ds) i

  pub sort-In : (x : Candidate A) (cs : List (Candidate A)) → In x (sort cs) → In x cs
  sort-In x [] i = elim i [ ]
  sort-In x (c ∷ cs) i = elim (insert-In x c (sort cs) i) [
    | inl e ↦ subst (λ y. In y (c ∷ cs)) (sym e) here
    | inr j ↦ there (sort-In x cs j)
  ]

  -- The first of the sorted candidates, with no other that goes before it.
  abbrev pub Leads : Candidate A → List (Candidate A) → Type 0
  Leads c ds = (d : Candidate A) × (head_of ds ≡ some d) × (comes_before c d ≡ false)

  Leads-if :
      (x c d : Candidate A) (b : Bool) (later ds : List (Candidate A))
      → comes_before d c ≡ b
      → (b ≡ true → comes_before x d ≡ false)
      → (b ≡ false → comes_before x c ≡ false)
      → Leads x (if b then d ∷ later else c ∷ d ∷ ds)
  Leads-if x c d true later ds e first second = (d, refl, first refl)
  Leads-if x c d false later ds e first second = (c, refl, second refl)

  insert-Leads : (c : Candidate A) (ds : List (Candidate A)) → Leads c (insert c ds)
  insert-Leads c [] = (c, refl, before_irrefl c)
  insert-Leads c (d ∷ ds) =
      Leads-if c c d (comes_before d c) (insert c ds) ds refl (before_asym d c)
        (λ h. before_irrefl c)

  insert_keeps : (x c : Candidate A) (ds : List (Candidate A)) → Leads x ds → Leads x (insert c ds)
  insert_keeps x c [] (d, e, n) = absurd (none-ne-some d e)
  insert_keeps x c (d ∷ ds) (d', e, n) =
      let leads : comes_before x d ≡ false =
        subst (λ y. comes_before x y ≡ false) (sym (some-injective d d' e)) n in
      Leads-if x c d (comes_before d c) (insert c ds) ds refl (λ h. leads)
        (λ h. before_trans x d c leads h)

  pub sort-Leads : (x : Candidate A) (cs : List (Candidate A)) → In x cs → Leads x (sort cs)
  sort-Leads x [] i = elim i [ ]
  sort-Leads x (c ∷ cs) here = insert-Leads c (sort cs)
  sort-Leads x (c ∷ cs) (there i) = insert_keeps x c (sort cs) (sort-Leads x cs i)

  pub In-append-left :
      {x : Candidate A} {cs : List (Candidate A)} (ds : List (Candidate A))
      → In x cs
      → In x (cs ++ ds)
  In-append-left ds here = here
  In-append-left ds (there i) = there (In-append-left ds i)

  pub In-append-right :
      {x : Candidate A} (cs : List (Candidate A)) {ds : List (Candidate A)}
      → In x ds
      → In x (cs ++ ds)
  In-append-right [] i = i
  In-append-right (c ∷ cs) i = there (In-append-right cs i)

  pub In-append :
      {x : Candidate A} (cs ds : List (Candidate A)) → In x (cs ++ ds) → In x cs ⊎ In x ds
  In-append [] ds i = inr i
  In-append (c ∷ cs) ds here = inl here
  In-append (c ∷ cs) ds (there i) = elim (In-append cs ds i) [
    | inl j ↦ inl (there j)
    | inr j ↦ inr j
  ]

  pub get-In :
      (key : String) (e : Endpoint A) (eps : List (String × Endpoint A))
      → dict_get key eps ≡ some e
      → In (key, e) eps
  get-In key e [] h = absurd (none-ne-some e h)
  get-In key e ((k, f) ∷ rest) h = elim (Bool-cases (str_eq k key)) [
    | inl same ↦
        let key_eq = str_eq_eq k key same in
        let value_eq : f ≡ e = some-injective f e (rw same at h) in
        subst (λ y. In y ((k, f) ∷ rest)) (ap (λ u. (u, f)) key_eq ∙ ap (λ u. (key, u)) value_eq)
          here
    | inr other ↦ there (get-In key e rest (rw other at h))
  ]
