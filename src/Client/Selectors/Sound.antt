-- ===== src/Client/Selectors/Sound.antt =====
-- What a contained selector says of an exporter's labels.
use jumpstarter.Client.Selectors.{
  Expression, Selector, value_in, satisfied_by, label_satisfies_expression, all_in, same_set,
  same_expression, any_same, has_value, labels_contain, and_later, expressions_contain,
  selector_contains,
}
use jumpstarter.Common.{
  Bool, true, false, Option, none, some, List, [], ◌∷◌, String, str_eq, dict_get, is_some, mem_text,
  str_eq_eq, Bool-cases, arith, ◌≡◌, inl, inr, ◌∙◌, refl, sym, ◌⊎◌, ap,
}

-- Every expression holds of the labels.
abbrev pub AllHold : List (String × String) → List Expression → Type 0
unfolding label_satisfies_expression
AllHold labels [] = Unit
AllHold labels (e ∷ es) = (label_satisfies_expression labels e ≡ some true) × AllHold labels es

-- The labels have each of the named ones, with its value.
abbrev pub AllNamed : List (String × String) → List (String × String) → Type 0
AllNamed labels [] = Unit
AllNamed labels ((key, value) ∷ rest) = (dict_get key labels ≡ some value) × AllNamed labels rest

-- A selector selects an exporter by its labels: each label that it names has the value that it
-- names, and each expression holds.
abbrev pub Selects : Selector → List (String × String) → Type 0
unfolding AllHold
Selects sel labels = AllNamed labels sel.match_labels × AllHold labels sel.match_expressions

-- The values of two expressions that are the same up to order are the same.
mem_all :
    (v : String) (a b : List String) → all_in a b ≡ true → mem_text v a ≡ true → mem_text v b ≡ true
mem_all v [] b h m = absurd (ground (arith, m))
mem_all v (x ∷ a) b h m = elim (Bool-cases (str_eq x v)) [
  | inl same ↦ ap (λ u. mem_text u b) (sym (str_eq_eq x v same)) ∙ ground (arith, h)
  | inr other ↦ mem_all v a b (ground (arith, h)) (ground (arith, m, other))
]

mem_same : (v : String) (a b : List String) → same_set a b ≡ true → mem_text v a ≡ mem_text v b
mem_same v a b h = elim (Bool-cases (mem_text v a)) [
  | inl is_in ↦ is_in ∙ sym (mem_all v a b (ground (arith, h)) is_in)
  | inr out ↦ elim (Bool-cases (mem_text v b)) [
    | inl is_in ↦ absurd (ground (arith, out, mem_all v b a (ground (arith, h)) is_in))
    | inr out' ↦ out ∙ sym out'
  ]
]

value_in_same :
    (value : Option String) (a b : List String)
    → same_set a b ≡ true
    → value_in value a ≡ value_in value b
value_in_same none a b h = refl
value_in_same (some v) a b h = mem_same v a b h

-- The same expression holds of the same labels.
same_holds :
    (s r : Expression) (labels : List (String × String))
    → same_expression s r ≡ true
    → label_satisfies_expression labels s ≡ label_satisfies_expression labels r
unfolding label_satisfies_expression
same_holds s r labels h =
    let key : s.key ≡ r.key = str_eq_eq s.key r.key (ground (arith, h)) in
    let operator : s.operator ≡ r.operator = str_eq_eq s.operator r.operator (ground (arith, h)) in
    let values = value_in_same (dict_get r.key labels) s.values r.values (ground (arith, h)) in
    rw (key, operator, values) refl

any_same-holds :
    (ss : List Expression) (r : Expression) (labels : List (String × String))
    → any_same ss r ≡ true
    → AllHold labels ss
    → label_satisfies_expression labels r ≡ some true
unfolding AllHold
any_same-holds [] r labels h all = absurd (ground (arith, h))
any_same-holds (s ∷ ss) r labels h all = elim (Bool-cases (same_expression s r)) [
  | inl same ↦ sym (same_holds s r labels same) ∙ all.0
  | inr other ↦ any_same-holds ss r labels (ground (arith, h, other)) all.1
]

-- An expression that is decided by the labels which are named: it asks for a key, or its key is
-- named.
abbrev pub Decided : List (String × String) → Expression → Type 0
Decided labels e =
    (e.operator ≡ "in") ⊎ ((e.operator ≡ "exists") ⊎ (is_some (dict_get e.key labels) ≡ true))

in_needs :
    (value : Option String) (values : List String)
    → satisfied_by value "in" values ≡ some true
    → is_some value ≡ true
in_needs none values h = absurd (ground (arith, h))
in_needs (some v) values h = refl

exists_needs :
    (value : Option String) (values : List String)
    → satisfied_by value "exists" values ≡ some true
    → is_some value ≡ true
exists_needs none values h = absurd (ground (arith, h))
exists_needs (some v) values h = refl

known_value :
    (sel : List (String × String)) (e : Expression)
    → Decided sel e
    → label_satisfies_expression sel e ≡ some true
    → is_some (dict_get e.key sel) ≡ true
unfolding label_satisfies_expression
known_value sel e (inl op) h = in_needs (dict_get e.key sel) e.values (rw op at h)
known_value sel e (inr (inl op)) h = exists_needs (dict_get e.key sel) e.values (rw op at h)
known_value sel e (inr (inr known)) h = known

the_value : (o : Option String) → is_some o ≡ true → (v : String) × (o ≡ some v)
the_value none h = absurd (ground (arith, h))
the_value (some v) h = (v, refl)

named_get :
    (labels sel : List (String × String))
    → AllNamed labels sel
    → (key value : String) → dict_get key sel ≡ some value
    → dict_get key labels ≡ some value
named_get labels [] all key value h = absurd (ground (arith, h))
named_get labels ((k, v) ∷ rest) all key value h = elim (Bool-cases (str_eq k key)) [
  | inl same ↦ ap (λ u. dict_get u labels) (sym (str_eq_eq k key same)) ∙ all.0 ∙ (rw same at h)
  | inr other ↦ named_get labels rest all.1 key value (rw other at h)
]

value_there : (o : Option String) (value : String) → has_value o value ≡ true → o ≡ some value
value_there none value h = absurd (ground (arith, h))
value_there (some v) value h = ap some (str_eq_eq v value h)

contained_named :
    (labels sel rs : List (String × String))
    → AllNamed labels sel
    → labels_contain sel rs ≡ true
    → AllNamed labels rs
contained_named labels sel [] all h = tt
contained_named labels sel ((key, value) ∷ rest) all h = (
  named_get labels sel all key value (value_there (dict_get key sel) value (ground (arith, h))),
  contained_named labels sel rest all (ground (arith, h)),
)

-- What the named labels decide, holds of any labels that have them.
settled_holds :
    (sel labels : List (String × String)) (e : Expression)
    → AllNamed labels sel
    → Decided sel e
    → label_satisfies_expression sel e ≡ some true
    → label_satisfies_expression labels e ≡ some true
unfolding label_satisfies_expression
settled_holds sel labels e have d h =
    let v = the_value (dict_get e.key sel) (known_value sel e d h) in
    let same : dict_get e.key sel ≡ dict_get e.key labels =
      v.1 ∙ sym (named_get labels sel have e.key v.0 v.1) in
    rw same at h

abbrev pub AllDecided : List (String × String) → List Expression → Type 0
AllDecided labels [] = Unit
AllDecided labels (e ∷ es) = Decided labels e × AllDecided labels es

both_true :
    (now later : Option Bool)
    → and_later now later ≡ some true
    → (now ≡ some true) × (later ≡ some true)
both_true none later h = absurd (ground (arith, h))
both_true (some false) later h = absurd (ground (arith, h))
both_true (some true) later h = (refl, h)

contained_holds :
    (sel : Selector) (rs : List Expression) (labels : List (String × String))
    → Selects sel labels
    → AllDecided sel.match_labels rs
    → expressions_contain sel rs ≡ some true
    → AllHold labels rs
unfolding expressions_contain AllHold Selects
contained_holds sel [] labels selects decided h = tt
contained_holds sel (r ∷ rs) labels selects decided h =
    elim (Bool-cases (any_same sel.match_expressions r)) [
      | inl found ↦ (
        any_same-holds sel.match_expressions r labels found selects.1,
        contained_holds sel rs labels selects decided.1 (rw found at h),
      )
      | inr not_found ↦
          let parts =
            both_true (label_satisfies_expression sel.match_labels r) (expressions_contain sel rs)
              (rw not_found at h) in
          (
            settled_holds sel.match_labels labels r selects.0 decided.0 parts.0,
            contained_holds sel rs labels selects decided.1 parts.1,
          )
    ]

-- A selector that contains the requirements, without a `ValueError`, selects no exporter that they
-- do not select, where each required expression either asks for a key, with `in` or `exists`, or is
-- about a label that the selector names.
pub selector_contains-Selects :
    (sel requirements : Selector) (labels : List (String × String))
    → AllDecided sel.match_labels requirements.match_expressions
    → selector_contains sel requirements ≡ some true
    → Selects sel labels
    → Selects requirements labels
unfolding selector_contains Selects
selector_contains-Selects sel requirements labels decided h selects =
    let named : labels_contain sel.match_labels requirements.match_labels ≡ true =
      ground (arith, h) in
    (
      contained_named labels sel.match_labels requirements.match_labels selects.0 named,
      contained_holds sel requirements.match_expressions labels selects decided (rw named at h),
    )
