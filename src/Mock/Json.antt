-- ===== src/Mock/Json.antt =====
-- Values of JSON in Python, and `_resolve_dotted_path`. Numbers are natural.
use jumpstarter.Common.{
  ℕ, zero, suc, ◌-◌, Bool, true, false, ◌&&◌, Option, none, some, List, [], ◌∷◌, String, str_eq,
  ◌==◌, ltb, if◌then◌else◌, split_on,
}

mutual
  pub data Json : Type 0 where
    null : Json
    bool : Bool → Json
    number : ℕ → Json
    text : String → Json
    array : Items → Json
    object : Fields → Json

  pub data Items : Type 0 where
    end : Items
    item : Json → Items → Items

  pub data Fields : Type 0 where
    empty : Fields
    field : String → Json → Fields → Fields

abbrev pub get : String → Fields → Option Json
get key empty = none
get key (field k v rest) = let later = get key rest in if str_eq k key then some v else later

abbrev pub set : String → Json → Fields → Fields
set key value empty = field key value empty
set key value (field k v rest) =
    let later = set key value rest in if str_eq k key then field k value rest else field k v later

abbrev pub at : ℕ → Items → Option Json
at n end = none
at zero (item v rest) = some v
at (suc n) (item v rest) = at n rest

abbrev pub count_items : Items → ℕ
count_items end = 0
count_items (item v rest) = suc (count_items rest)

abbrev pub count_fields : Fields → ℕ
count_fields empty = 0
count_fields (field k v rest) = suc (count_fields rest)

abbrev pub bit : Bool → ℕ
bit true = 1
bit false = 0

-- An integer, as `int` reads it from a text: from the start of a list, or -(n + 1).
pub data Index : Type 0 where
  from_start from_end : ℕ → Index

abbrev pub item_at : Index → Items → Option Json
item_at (from_start n) items = at n items
item_at (from_end n) items =
    if ltb n (count_items items) then at (count_items items - suc n) items else none

-- `obj.get(part)`, and `obj[int(part)]`; `int_of` is none for a `ValueError`
abbrev pub or_null : Option Json → Json
or_null none = null
or_null (some v) = v

abbrev pub index_in : Option Index → Items → Option Json
index_in none items = none
index_in (some i) items = item_at i items

-- One part of the path: none for an early `return None`.
abbrev pub step_into : (String → Option Index) → String → Json → Option Json
step_into int_of part (object fields) = some (or_null (get part fields))
step_into int_of part (array items) = index_in (int_of part) items
step_into int_of part v = none

abbrev pub resolve_parts : (String → Option Index) → List String → Json → Json
resolve_parts int_of [] v = v
resolve_parts int_of (part ∷ parts) v = elim (step_into int_of part v) [
  | none ↦ null
  | some inner ↦ resolve_parts int_of parts inner
]

-- `_resolve_dotted_path`
unfoldable pub resolve_dotted_path : (String → Option Index) → Json → String → Json
resolve_dotted_path int_of v path = resolve_parts int_of (split_on b'.' path) v

abbrev pub atom_eq : Json → Json → Bool
atom_eq null null = true
atom_eq (bool a) (bool b) = bit a == bit b
atom_eq (bool a) (number n) = bit a == n
atom_eq (number m) (bool b) = m == bit b
atom_eq (number m) (number n) = m == n
atom_eq (text s) (text t) = str_eq s t
atom_eq _ _ = false

-- `==`; a dictionary has no order.
unfoldable mutual
  pub json_eq : Json → Json → Bool
  json_eq (array a) (array b) = items_eq a b
  json_eq (object a) (object b) = (count_fields a == count_fields b) && fields_in a b
  json_eq a b = atom_eq a b

  pub items_eq : Items → Items → Bool
  items_eq end end = true
  items_eq (item a more) (item b others) = json_eq a b && items_eq more others
  items_eq _ _ = false

  pub fields_in : Fields → Fields → Bool
  fields_in empty b = true
  fields_in (field k v rest) b =
      (elim (get k b) [ none ↦ false | some u ↦ json_eq v u ]) && fields_in rest b
