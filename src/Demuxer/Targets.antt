-- ===== src/Demuxer/Targets.antt =====
-- Which driver has which target, and which targets are ready.
use mathlib.Core.Path.{subst}
use jumpstarter.Demuxer.Steps.{
  Reach, Step, registers, next, begin, unregisters, finds, starts, reads, clears, ends, cleans,
}
use jumpstarter.Common.{
  String, Option, List, dict_delete, ◌≡◌, some, false, if_both, has_key, str_eq, dict_set, ◌||◌,
  Bool-cases, arith, ◌∙◌, inr, ap, inl, sym, has_key-set, str_eq_eq, none, [], dict_get,
  has_key-delete, refl, str_eq_sym, true, str_eq_refl, is_some, strip, mem_text,
}
use jumpstarter.Demuxer.{
  Manager, register_driver, unregister_driver, record_path, has_target, cleanup, validate_config,
  Registration, read_line, add_text, add_driver, register_first, Refusal, is_ready, checked,
  configure, get_pts_path, parse_demuxer_line,
}
use jumpstarter.Common.{◌∷◌}

-- No two drivers have an id or a target in common.
abbrev pub Distinct : List (String × String) → Type 0
Distinct [] = Unit {0}
Distinct ((id, t) ∷ rest) = (has_key id rest ≡ false) × (has_target t rest ≡ false) × Distinct rest

has_target-set :
    (t k v : String) (ds : List (String × String))
    → has_target t ds ≡ false
    → str_eq v t ≡ false
    → has_target t (dict_set k v ds) ≡ false
has_target-set t k v [] h e = ground (arith, e)
has_target-set t k v ((id, u) ∷ rest) h e = ground (arith, h, e, has_target-set t k v rest)

has_target-delete :
    (t k : String) (ds : List (String × String))
    → has_target t ds ≡ false
    → has_target t (dict_delete k ds) ≡ false
has_target-delete t k [] h = refl
has_target-delete t k ((id, u) ∷ rest) h = ground (arith, h, has_target-delete t k rest)

set-Distinct :
    (k v : String) (ds : List (String × String))
    → Distinct ds
    → has_target v ds ≡ false
    → Distinct (dict_set k v ds)
set-Distinct k v [] d h = (refl, refl, record {})
set-Distinct k v ((id, u) ∷ rest) d h = elim (Bool-cases (str_eq id k)) [
  | inl e ↦
      rw e (subst (λ x. has_key x rest ≡ false) (str_eq_eq id k e) d.0, ground (arith, h), d.2)
  | inr e ↦ rw e (
    has_key-set k id v rest ∙ ground (arith, d.0, str_eq_sym k id, e),
    has_target-set u k v rest d.1 (ground (arith, h, str_eq_sym v u)),
    set-Distinct k v rest d.2 (ground (arith, h)),
  )
]

delete-Distinct :
    (k : String) (ds : List (String × String)) → Distinct ds → Distinct (dict_delete k ds)
delete-Distinct k [] d = d
delete-Distinct k ((id, u) ∷ rest) d =
    if_both Distinct (str_eq id k) d.2
      (has_key-delete k id rest d.0, has_target-delete u k rest d.1, delete-Distinct k rest d.2)

mem-add :
    (t a : String) (bs : List String) → mem_text t (add_text a bs) ≡ (str_eq a t || mem_text t bs)
mem-add t a bs = elim (Bool-cases (mem_text a bs)) [
  | inr new ↦ ground (arith, new)
  | inl old ↦ elim (Bool-cases (str_eq a t)) [
    | inr other ↦ ground (arith, old, other)
    | inl same ↦ ground (arith, old, same, ap (λ x. mem_text x bs) (str_eq_eq a t same))
  ]
]

pub record Sound (m : Manager) : Type 0 where
  pub distinct : Distinct m.drivers
  pub ready : (t : String) → mem_text t m.ready_targets ≡ has_key t m.pts_map

record_path-Sound :
    (parsed : Option String × Option String) (m : Manager) → Sound m → Sound (record_path parsed m)
record_path-Sound (some path, some target) m s =
    if_both Sound (str_eq path "" || str_eq target "") s (record {
      distinct = s.distinct;
      ready = λ t.
          mem-add t target m.ready_targets
          ∙ ap (λ b. str_eq target t || b) (s.ready t)
          ∙ sym (has_key-set target t path m.pts_map);
    })
record_path-Sound (some path, none) m s = s
record_path-Sound (none, target) m s = s

add_driver-Sound :
    (r : Registration) (m : Manager)
    → Sound m
    → has_target r.target m.drivers ≡ false
    → Sound (add_driver r m)
add_driver-Sound r m s free =
    let d = set-Distinct r.driver_id r.target m.drivers s.distinct free in
    if_both Sound m.monitor_alive (record { distinct = d; ready = s.ready })
      (record { distinct = d; ready = s.ready })

validate_config-free :
    (r : Registration) (m : Manager)
    → validate_config r m ≡ none
    → has_target r.target m.drivers ≡ false
unfolding validate_config
validate_config-free r m h = ground (arith, h)

checked-Sound :
    (o : Option Refusal) (r : Registration) (m : Manager)
    → validate_config r m ≡ o
    → Sound m
    → Sound (checked o r m).0
checked-Sound none r m e s = add_driver-Sound r m s (validate_config-free r m e)
checked-Sound (some refusal) r m e s = s

register_first-Sound :
    (ds : List (String × String)) (r : Registration) (m : Manager)
    → m.drivers ≡ ds
    → Sound m
    → Sound (register_first ds r m).0
unfolding register_first
register_first-Sound [] r m e s =
    add_driver-Sound r (configure r m) (record { distinct = s.distinct; ready = s.ready })
      (ap (has_target r.target) e)
register_first-Sound (d ∷ ds) r m e s = checked-Sound (validate_config r m) r m refl s

register_driver-Sound : (r : Registration) (m : Manager) → Sound m → Sound (register_driver r m).0
unfolding register_driver
register_driver-Sound r m s = register_first-Sound m.drivers r m refl s

Step-Sound : {m n : Manager} → Step m n → Sound m → Sound n
unfolding unregister_driver cleanup read_line
Step-Sound (registers r m) s = register_driver-Sound r m s
Step-Sound (unregisters id m) s = record {
  distinct = delete-Distinct id m.drivers s.distinct;
  ready = s.ready;
}
Step-Sound (finds m) s = record { distinct = s.distinct; ready = s.ready }
Step-Sound (starts m) s = record { distinct = s.distinct; ready = s.ready }
Step-Sound (reads line m) s =
    if_both Sound (m.shutdown || str_eq (strip line) "") s
      (record_path-Sound (parse_demuxer_line (strip line)) m s)
Step-Sound (clears m) s = record { distinct = s.distinct; ready = λ t. refl }
Step-Sound (ends m) s = record { distinct = s.distinct; ready = λ t. refl }
Step-Sound (cleans m) s =
    if_both Sound m.cleanup_done s (record { distinct = record {}; ready = λ t. refl })

Reach-Sound : {m : Manager} → Reach m → Sound m
Reach-Sound begin = record { distinct = record {}; ready = λ t. refl }
Reach-Sound (next r st) = Step-Sound st (Reach-Sound r)

get-has_target :
    (id t : String) (ds : List (String × String)) → dict_get id ds ≡ some t → has_target t ds ≡ true
get-has_target id t [] h = cc
get-has_target id t ((k, u) ∷ rest) h = elim (Bool-cases (str_eq k id)) [
  | inl e ↦ let same : u ≡ t = ground (arith, e, h) in rw same (ground (arith, str_eq_refl t))
  | inr e ↦ ground (arith, e, h, get-has_target id t rest)
]

Distinct-get :
    (ds : List (String × String)) (i j t : String)
    → Distinct ds
    → dict_get i ds ≡ some t
    → dict_get j ds ≡ some t
    → i ≡ j
Distinct-get [] i j t d h g = cc
Distinct-get ((k, u) ∷ rest) i j t d h g = elim (Bool-cases (str_eq k i)) [
  | inl e ↦ elim (Bool-cases (str_eq k j)) [
    | inl f ↦ sym (str_eq_eq k i e) ∙ str_eq_eq k j f
    | inr f ↦ absurd (ground (arith, d.1, e, f, h, g, get-has_target j t rest))
  ]
  | inr e ↦ elim (Bool-cases (str_eq k j)) [
    | inl f ↦ absurd (ground (arith, d.1, e, f, h, g, get-has_target i t rest))
    | inr f ↦ Distinct-get rest i j t d.2 (ground (arith, e, h)) (ground (arith, f, g))
  ]
]

module _ {m : Manager} (r : Reach m) where
  -- In every state that the manager reaches, whatever the threads do: two drivers with one target
  -- are the same driver, so no two drivers read one channel; and a target is ready exactly when its
  -- path is known, so a driver whose target is ready is given a path.
  pub drivers_exclusive :
      (i j t : String)
      → dict_get i m.drivers ≡ some t
      → dict_get j m.drivers ≡ some t
      → (i ≡ j) × (is_ready t m ≡ is_some (get_pts_path i m))
  unfolding is_ready get_pts_path
  drivers_exclusive i j t h g =
      let s = Reach-Sound r in
      (Distinct-get m.drivers i j t s.distinct h g, s.ready t ∙ ground (arith, h))
