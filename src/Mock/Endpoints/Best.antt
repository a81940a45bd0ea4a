-- ===== src/Mock/Endpoints/Best.antt =====
-- bundled_addon.py: which endpoint `_find_endpoint` finds.
use mathlib.Core.Path.{subst}
use Prim.Native.String.{count}
use jumpstarter.Mock.Endpoints.{
  Endpoint, Candidate, check_keys, collect_wildcard_matches, exact_candidates, wildcard_matches,
  find_endpoint, exact_candidate, is_websocket, exact_key, comes_before, sort, ltz,
}
use jumpstarter.Common.{
  of_both, List, String, ◌≡◌, Bool, true, str_eq, ◌&&◌, ◌∷◌, dict_get, Option, inl, some, ◌++◌, ap,
  ◌⊎◌, ◌||◌, Bool-cases, [], inr, sym, false, refl, str_eq_refl, str_eq_eq, if◌then◌else◌, none,
  leb, arith,
}
use jumpstarter.Mock.Conditions.{ProxyLibrary, Request, matches_conditions}
use jumpstarter.Mock.Endpoints.Order.{
  In, In-append, then_inv, there, third_and, then-In, In-append-left, here, In-append-right, get-In,
  sort-Leads, by_second, by_third, sort-In, head-In,
}

module _ {A : Type 0} (p : ProxyLibrary) (eps : List (String × Endpoint A)) (method path : String)
    (r : Request) where
  -- An endpoint answers the request by its key, exactly or as a pattern, and by its conditions.
  abbrev pub by_key : String → Bool
  by_key key =
      str_eq key (exact_key method path)
      || ((is_websocket p r && str_eq key (exact_key "WEBSOCKET" path))
          || wildcard_matches (is_websocket p r) method path key)

  abbrev pub answers : String → Endpoint A → Bool
  unfolding matches_conditions
  answers key e = by_key key && matches_conditions p e.matching r

  abbrev all_candidates : List (Candidate A)
  all_candidates =
      exact_candidates p eps method path r (check_keys p eps method path r)
      ++ collect_wildcard_matches p eps method path r eps

  exact-In :
      (key : String) (e : Endpoint A)
      → dict_get key eps ≡ some e
      → matches_conditions p e.matching r ≡ true
      → In (key, e) (exact_candidate p eps method path r key (dict_get key eps))
  unfolding matches_conditions
  exact-In key e h m = rw (h, m) here

  wildcards-In :
      (key : String) (e : Endpoint A) (rest : List (String × Endpoint A))
      → In (key, e) rest
      → (wildcard_matches (is_websocket p r) method path key && matches_conditions p e.matching r)
        ≡ true
      → In (key, e) (collect_wildcard_matches p eps method path r rest)
  unfolding matches_conditions
  wildcards-In key e [] i m = elim i [ ]
  wildcards-In key e ((k, f) ∷ rest) here m = rw m here
  wildcards-In key e ((k, f) ∷ rest) (there i) m =
      then-In (key, e) (k, f)
        (wildcard_matches (is_websocket p r) method path k && matches_conditions p f.matching r)
        (collect_wildcard_matches p eps method path r rest) (wildcards-In key e rest i m)

  -- Every candidate is an endpoint of the table that answers the request.
  abbrev Sound : List (Candidate A) → Candidate A → Type 0
  unfolding matches_conditions
  Sound rest (k, e) = (answers k e ≡ true) × In (k, e) rest

  exact-Sound :
      (x : Candidate A) (key : String) (o : Option (Endpoint A))
      → dict_get key eps ≡ o
      → by_key key ≡ true
      → In x (exact_candidate p eps method path r key o)
      → Sound eps x
  unfolding matches_conditions
  exact-Sound x key none h b i = elim i [ ]
  exact-Sound x key (some e) h b i =
      elim (then_inv x (key, e) (matches_conditions p e.matching r) [] i) [
        | inl (m, same) ↦ subst (Sound eps) (sym same) (rw (b, m) refl, get-In key e eps h)
        | inr j ↦ elim j [ ]
      ]

  exacts-Sound :
      (x : Candidate A) (keys : List String)
      → ((key : String) → In key keys → by_key key ≡ true)
      → In x (exact_candidates p eps method path r keys)
      → Sound eps x
  unfolding matches_conditions
  exacts-Sound x [] b i = elim i [ ]
  exacts-Sound x (key ∷ keys) b i =
      elim (In-append (exact_candidate p eps method path r key (dict_get key eps))
        (exact_candidates p eps method path r keys) i) [
          | inl j ↦ exact-Sound x key (dict_get key eps) refl (b key here) j
          | inr j ↦ exacts-Sound x keys (λ k i'. b k (there i')) j
        ]

  check_keys-by_key : (key : String) → In key (check_keys p eps method path r) → by_key key ≡ true
  unfolding matches_conditions
  check_keys-by_key key here =
      ap
        (λ b.
          b
          || ((is_websocket p r && str_eq key (exact_key "WEBSOCKET" path))
              || wildcard_matches (is_websocket p r) method path key))
        (str_eq_refl (exact_key method path))
  check_keys-by_key key (there i) =
      elim (then_inv key (exact_key "WEBSOCKET" path) (is_websocket p r) [] i) [
        | inl (ws, same) ↦
            by_second (str_eq key (exact_key method path)) (is_websocket p r)
              (str_eq key (exact_key "WEBSOCKET" path))
              (wildcard_matches (is_websocket p r) method path key) ws
              (rw same (str_eq_refl (exact_key "WEBSOCKET" path)))
        | inr j ↦ elim j [ ]
      ]

  by_pattern :
      (k : String) (e : Endpoint A)
      → (wildcard_matches (is_websocket p r) method path k && matches_conditions p e.matching r)
        ≡ true
      → answers k e ≡ true
  unfolding matches_conditions
  by_pattern k e m =
      third_and (str_eq k (exact_key method path))
        (is_websocket p r && str_eq k (exact_key "WEBSOCKET" path))
        (wildcard_matches (is_websocket p r) method path k) (matches_conditions p e.matching r) m

  there_too : (c x : Candidate A) (rest : List (Candidate A)) → Sound rest x → Sound (c ∷ rest) x
  unfolding matches_conditions
  there_too c (k, e) rest (a, i) = (a, there i)

  wildcards-Sound :
      (x : Candidate A) (rest : List (String × Endpoint A))
      → In x (collect_wildcard_matches p eps method path r rest)
      → Sound rest x
  unfolding matches_conditions
  wildcards-Sound x [] i = elim i [ ]
  wildcards-Sound x ((k, e) ∷ rest) i =
      elim (then_inv x (k, e)
        (wildcard_matches (is_websocket p r) method path k && matches_conditions p e.matching r)
        (collect_wildcard_matches p eps method path r rest) i) [
          | inl (m, same) ↦ subst (Sound ((k, e) ∷ rest)) (sym same) (by_pattern k e m, here)
          | inr j ↦ there_too (k, e) x rest (wildcards-Sound x rest j)
        ]

  candidates-Sound : (x : Candidate A) → In x all_candidates → Sound eps x
  unfolding matches_conditions
  candidates-Sound x i =
      elim (In-append (exact_candidates p eps method path r (check_keys p eps method path r))
        (collect_wildcard_matches p eps method path r eps) i) [
          | inl j ↦ exacts-Sound x (check_keys p eps method path r) check_keys-by_key j
          | inr j ↦ wildcards-Sound x eps j
        ]

  exacts-In :
      (key : String) (e : Endpoint A) (keys : List String)
      → dict_get key eps ≡ some e
      → matches_conditions p e.matching r ≡ true
      → In key keys
      → In (key, e) (exact_candidates p eps method path r keys)
  unfolding matches_conditions
  exacts-In key e [] h m i = elim i [ ]
  exacts-In key e (k ∷ keys) h m here =
      In-append-left (exact_candidates p eps method path r keys) (exact-In key e h m)
  exacts-In key e (k ∷ keys) h m (there i) =
      In-append-right (exact_candidate p eps method path r k (dict_get k eps))
        (exacts-In key e keys h m i)

  by_key-check_keys :
      (key : String)
      → by_key key ≡ true
      → In key (check_keys p eps method path r)
        ⊎ (wildcard_matches (is_websocket p r) method path key ≡ true)
  by_key-check_keys key h = elim (Bool-cases (str_eq key (exact_key method path))) [
    | inl same ↦ inl (rw (str_eq_eq key (exact_key method path) same) here)
    | inr other ↦ elim (Bool-cases (is_websocket p r && str_eq key (exact_key "WEBSOCKET" path))) [
      | inl both ↦
          let (ws, same) =
            of_both (is_websocket p r) (str_eq key (exact_key "WEBSOCKET" path)) both in
          inl (
            there (
              subst (λ y. In y (if is_websocket p r then exact_key "WEBSOCKET" path ∷ [] else []))
                (sym (str_eq_eq key (exact_key "WEBSOCKET" path) same)) (rw ws here)))
      | inr neither ↦ inr (
          by_third (str_eq key (exact_key method path))
            (is_websocket p r && str_eq key (exact_key "WEBSOCKET" path))
            (wildcard_matches (is_websocket p r) method path key) other neither h)
    ]
  ]

  candidate-In :
      (key : String) (e : Endpoint A)
      → dict_get key eps ≡ some e
      → answers key e ≡ true
      → In (key, e) all_candidates
  unfolding matches_conditions
  candidate-In key e h a =
      let (k, m) = of_both (by_key key) (matches_conditions p e.matching r) a in
      elim (by_key-check_keys key k) [
        | inl i ↦
            In-append-left (collect_wildcard_matches p eps method path r eps)
              (exacts-In key e (check_keys p eps method path r) h m i)
        | inr w ↦
            In-append-right (exact_candidates p eps method path r (check_keys p eps method path r))
              (wildcards-In key e eps (get-In key e eps h) (rw (w, m) refl))
      ]

  leads_by_priority :
      (key : String) (e : Endpoint A) (d : Candidate A)
      → comes_before (key, e) d ≡ false
      → ltz d.1.priority e.priority ≡ false
  leads_by_priority key e d h = ground (arith, h)

  leads_by_length :
      (key : String) (e : Endpoint A) (d : Candidate A)
      → comes_before (key, e) d ≡ false
      → (ltz e.priority d.1.priority || leb (count key) (count d.0)) ≡ true
  leads_by_length key e d h = ground (arith, h)

  -- Where an endpoint of the table answers a request, by its key and its conditions, one is found:
  -- it stands in the table, it answers the request too, its priority is not less, and it is
  -- greater where the other's key is longer.
  pub find_endpoint-best :
      (key : String) (e : Endpoint A)
      → dict_get key eps ≡ some e
      → answers key e ≡ true
      → (d : Candidate A) × (find_endpoint p eps method path r ≡ some d)
        × (answers d.0 d.1 ≡ true)
        × In d eps
        × (ltz d.1.priority e.priority ≡ false)
        × ((ltz e.priority d.1.priority || leb (count key) (count d.0)) ≡ true)
  unfolding matches_conditions find_endpoint
  find_endpoint-best key e h a =
      let (d, first, leads) = sort-Leads (key, e) all_candidates (candidate-In key e h a) in
      let i = sort-In d all_candidates (head-In d (sort all_candidates) first) in
      let (a', j) = candidates-Sound d i in
      (d, first, a', j, leads_by_priority key e d leads, leads_by_length key e d leads)
