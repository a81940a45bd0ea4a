-- ===== src/Demuxer.antt =====
-- python/packages/jumpstarter-driver-pyserial/jumpstarter_driver_pyserial/nvdemux/manager.py: the
-- manager of the demuxer process that several serial drivers share. Threads take its lock in turn;
-- the process, the devices and the clock are the system's. Log, signals and timeouts of `wait` are
-- not modelled.
pub mod Steps
pub mod Targets
pub mod Stale
use jumpstarter.Common.{
  ℕ, Bool, true, false, not, ◌&&◌, ◌||◌, Option, none, some, List, [], ◌∷◌, String, str_eq, ◌==◌,
  if◌then◌else◌, dict_get, dict_set, dict_delete, has_key, strip, starts_with, mem_text,
}
use Prim.Native.Char.{Char, code}
use Prim.Native.String

-- A running process, by the command that it was started with.
pub record Process : Type 0 where
  pub path : String
  pub chip : String
  pub device : String

-- `drivers` maps a driver's id to its target; `resolved` is the device pattern that the monitor
-- thread has found a device for.
pub record Manager : Type 0 where
  pub drivers : List (String × String)
  pub pts_map : List (String × String)
  pub ready_targets : List String
  pub process : Option Process
  pub resolved : Option String
  pub monitor_alive : Bool
  pub shutdown : Bool
  pub cleanup_done : Bool
  pub demuxer_path : Option String
  pub device : Option String
  pub chip : Option String

abbrev pub new_manager : Manager
new_manager = record {
  drivers = [];
  pts_map = [];
  ready_targets = [];
  process = none;
  resolved = none;
  monitor_alive = false;
  shutdown = false;
  cleanup_done = false;
  demuxer_path = none;
  device = none;
  chip = none;
}

-- The `ValueError`s of `_validate_config`.
pub data Refusal : Type 0 where
  path_mismatch device_mismatch chip_mismatch target_taken : Refusal

abbrev pub same_text : Option String → String → Bool
same_text none b = false
same_text (some a) b = str_eq a b

abbrev pub has_target : String → List (String × String) → Bool
has_target target [] = false
has_target target ((id, t) ∷ rest) = let later = has_target target rest in str_eq t target || later

-- The arguments of `register_driver`, without the poll interval.
pub record Registration : Type 0 where
  pub driver_id : String
  pub demuxer_path : String
  pub device : String
  pub chip : String
  pub target : String

unfoldable pub validate_config : Registration → Manager → Option Refusal
validate_config r m =
    if not (same_text m.demuxer_path r.demuxer_path)
    then some path_mismatch
    else if not (same_text m.device r.device)
    then some device_mismatch
    else if not (same_text m.chip r.chip)
    then some chip_mismatch
    else if has_target r.target m.drivers
    then some target_taken
    else none

abbrev pub start_monitor : Manager → Manager
start_monitor m = record m { shutdown = false; monitor_alive = true }

abbrev pub add_driver : Registration → Manager → Manager
add_driver r m =
    let m = record m { drivers = dict_set r.driver_id r.target m.drivers } in
    if m.monitor_alive then m else start_monitor m

abbrev pub configure : Registration → Manager → Manager
configure r m = record m {
  demuxer_path = some r.demuxer_path;
  device = some r.device;
  chip = some r.chip;
}

abbrev pub checked : Option Refusal → Registration → Manager → Manager × Option Refusal
checked none r m = (add_driver r m, none)
checked (some refusal) r m = (m, some refusal)

abbrev pub register_first :
    List (String × String) → Registration → Manager → Manager × Option Refusal
unfolding validate_config
register_first [] r m = (add_driver r (configure r m), none)
register_first (d ∷ ds) r m = checked (validate_config r m) r m

unfoldable pub register_driver : Registration → Manager → Manager × Option Refusal
unfolding validate_config
register_driver r m = register_first m.drivers r m

unfoldable pub unregister_driver : String → Manager → Manager
unregister_driver id m = record m { drivers = dict_delete id m.drivers }

abbrev pub path_of : Option String → Manager → Option String
path_of none m = none
path_of (some target) m = dict_get target m.pts_map

unfoldable pub get_pts_path : String → Manager → Option String
get_pts_path id m = path_of (dict_get id m.drivers) m

unfoldable pub is_ready : String → Manager → Bool
is_ready target m = mem_text target m.ready_targets

abbrev pub clear_ready : Manager → Manager
clear_ready m = record m { pts_map = []; ready_targets = [] }

-- `_cleanup`, with `_stop_monitor`
unfoldable pub cleanup : Manager → Manager
cleanup m =
    if m.cleanup_done
    then m
    else clear_ready (record m {
      cleanup_done = true;
      shutdown = true;
      process = none;
      monitor_alive = false;
      drivers = [];
    })

abbrev pub prepend_char : Char → List String → List String
prepend_char c [] = String.◌∷◌ c "" ∷ []
prepend_char c (p ∷ ps) = String.◌∷◌ c p ∷ ps

abbrev pub split_tab : String → List String
split_tab String.[] = "" ∷ []
split_tab (String.◌∷◌ c cs) =
    let rest = split_tab cs in if code c == 9 then "" ∷ rest else prepend_char c rest

-- `_parse_demuxer_line`: the path and the target
unfoldable pub parse_demuxer_line : String → Option String × Option String
parse_demuxer_line line = elim (split_tab line) [
  | [] ↦ (none, none)
  | path ∷ rest ↦ elim rest [
    | [] ↦ (none, none)
    | target ∷ _ ↦
        (if starts_with "/dev/" path then some (strip path) else none, some (strip target))
  ]
]

abbrev pub add_text : String → List String → List String
add_text a bs = if mem_text a bs then bs else a ∷ bs

-- Both parts must be there and not empty.
abbrev pub record_path : Option String × Option String → Manager → Manager
record_path (some path, some target) m =
    if str_eq path "" || str_eq target "" then m else record m {
      pts_map = dict_set target path m.pts_map;
      ready_targets = add_text target m.ready_targets;
    }
record_path (some path, none) m = m
record_path (none, target) m = m

-- One line of `_read_demuxer_output`.
unfoldable pub read_line : String → Manager → Manager
unfolding parse_demuxer_line
read_line line m =
    let line = strip line in
    if m.shutdown || str_eq line "" then m else record_path (parse_demuxer_line line) m

-- `_wait_for_device` finds a device; `_start_demuxer_process` starts the process for it.
abbrev pub find_device : Manager → Manager
find_device m = record m { resolved = m.device }

abbrev pub process_of : Option String → Option String → Option String → Option Process
process_of (some path) (some chip) (some device) =
    some (record { path = path; chip = chip; device = device })
process_of (some path) (some chip) none = none
process_of (some path) none device = none
process_of none chip device = none

abbrev pub start_demuxer_process : Manager → Manager
start_demuxer_process m = record m { process = process_of m.demuxer_path m.chip m.resolved }

-- `_cleanup_demuxer_process`
abbrev pub cleanup_demuxer_process : Manager → Manager
cleanup_demuxer_process m = clear_ready (record m { process = none })
