-- ===== src/Common/Dicts.antt =====
-- A dictionary with texts as keys, as an association list in the order of insertion.
use mathlib.Core.Path.{◌≡◌, refl, sym, ap, ◌∙◌}
use mathlib.Core.Bool.{Bool, true, false, ◌||◌}
use mathlib.Core.Logic.{inl, inr}
use mathlib.Core.List.{List, [], ◌∷◌}
use mathlib.Core.Option.{Option, none, some}
use Prim.Native.String.{String}
use native.Mathlib.Omega.{arith}
use text.Mathlib.Text.{◌==◌ as str_eq}
use text.Mathlib.TextEquality.{eq_iff}
use jumpstarter.Common.Tests.{if◌then◌else◌, is_some, Bool-cases}

module _ {ℓ} {A : Type ℓ} where
  abbrev pub dict_get : String → List (String × A) → Option A
  dict_get key [] = none
  dict_get key ((k, a) ∷ rest) =
      let later = dict_get key rest in if str_eq k key then some a else later

  abbrev pub dict_set : String → A → List (String × A) → List (String × A)
  dict_set key value [] = (key, value) ∷ []
  dict_set key value ((k, a) ∷ rest) =
      let later = dict_set key value rest in
      if str_eq k key then (key, value) ∷ rest else (k, a) ∷ later

  abbrev pub dict_delete : String → List (String × A) → List (String × A)
  dict_delete key [] = []
  dict_delete key ((k, a) ∷ rest) =
      let later = dict_delete key rest in if str_eq k key then rest else (k, a) ∷ later

  abbrev pub has_key : String → List (String × A) → Bool
  has_key key d = is_some (dict_get key d)

abbrev pub mem_text : String → List String → Bool
mem_text a [] = false
mem_text a (b ∷ bs) = let rest = mem_text a bs in str_eq b a || rest

pub str_eq_refl : (a : String) → str_eq a a ≡ true
str_eq_refl a = (eq_iff a a).1 refl

pub str_eq_eq : (a b : String) → str_eq a b ≡ true → a ≡ b
str_eq_eq a b h = (eq_iff a b).0 h

pub str_eq_sym : (a b : String) → str_eq a b ≡ str_eq b a
str_eq_sym a b = elim (Bool-cases (str_eq a b)) [
  | inl e ↦ elim (Bool-cases (str_eq b a)) [
    | inl f ↦ e ∙ sym f
    | inr f ↦ absurd (ground (arith, f, (eq_iff b a).1 (sym (str_eq_eq a b e))))
  ]
  | inr e ↦ elim (Bool-cases (str_eq b a)) [
    | inl f ↦ absurd (ground (arith, e, (eq_iff a b).1 (sym (str_eq_eq b a f))))
    | inr f ↦ e ∙ sym f
  ]
]

module _ {ℓ} {A : Type ℓ} where
  pub has_key-set :
      (key key' : String) (value : A) (d : List (String × A))
      → has_key key' (dict_set key value d) ≡ (str_eq key key' || has_key key' d)
  has_key-set key key' value [] = ground arith
  has_key-set key key' value ((k, a) ∷ rest) = elim (Bool-cases (str_eq k key)) [
    | inl e ↦ ground (arith, e, ap (λ x. str_eq x key') (str_eq_eq k key e))
    | inr e ↦ ground (arith, e, has_key-set key key' value rest)
  ]

  pub has_key-delete :
      (key key' : String) (d : List (String × A))
      → has_key key' d ≡ false
      → has_key key' (dict_delete key d) ≡ false
  has_key-delete key key' [] h = refl
  has_key-delete key key' ((k, a) ∷ rest) h = ground (arith, h, has_key-delete key key' rest)

  pub dict_get-set :
      (key : String) (value : A) (d : List (String × A))
      → dict_get key (dict_set key value d) ≡ some value
  dict_get-set key value [] = rw (str_eq_refl key) refl
  dict_get-set key value ((k, a) ∷ rest) = elim (Bool-cases (str_eq k key)) [
    | inl e ↦ rw (e, str_eq_refl key) refl
    | inr e ↦ rw (e, e) (dict_get-set key value rest)
  ]

  pub dict_get-set_other :
      (key key' : String) (value : A) (d : List (String × A))
      → str_eq key key' ≡ false
      → dict_get key' (dict_set key value d) ≡ dict_get key' d
  dict_get-set_other key key' value [] h = rw h refl
  dict_get-set_other key key' value ((k, a) ∷ rest) h = elim (Bool-cases (str_eq k key)) [
    | inl e ↦ rw (e, h, ap (λ x. str_eq x key') (str_eq_eq k key e), h) refl
    | inr e ↦ elim (Bool-cases (str_eq k key')) [
      | inl f ↦ rw (e, f) refl
      | inr f ↦ rw (e, f) (dict_get-set_other key key' value rest h)
    ]
  ]
