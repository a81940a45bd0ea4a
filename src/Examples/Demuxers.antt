-- ===== src/Examples/Demuxers.antt =====
-- The shared demuxer at concrete inputs.
use jumpstarter.Demuxer.Targets.{drivers_exclusive}
use jumpstarter.Demuxer.Steps.{Reach, next, begin, registers}
use jumpstarter.Demuxer.Stale.{register_driver-stale}
use jumpstarter.Common.{some, ◌≡◌, ◌∷◌, none, [], refl, is_some, String}
use jumpstarter.Demuxer.{
  register_driver, Registration, Manager, unregister_driver, new_manager, get_pts_path, is_ready,
}

abbrev first_driver : Registration
first_driver = record {
  driver_id = "one";
  demuxer_path = "/bin/demuxer";
  device = "/dev/ttyUSB0";
  chip = "T264";
  target = "CCPLEX: 0";
}

abbrev second_driver : Registration
second_driver = record first_driver { driver_id = "two"; device = "/dev/ttyUSB9" }

abbrev registered : Manager
unfolding register_driver
registered = (register_driver first_driver new_manager).0

abbrev to_registered : Reach registered
unfolding register_driver
to_registered = next begin (registers first_driver new_manager)

abbrev one : String
one = "one"

drivers_exclusive_example :
    (one ≡ one) × (is_ready "CCPLEX: 0" registered ≡ is_some (get_pts_path "one" registered))
unfolding register_driver
drivers_exclusive_example = drivers_exclusive to_registered one one "CCPLEX: 0" refl refl

abbrev printed : Manager
printed = record registered {
  process = some (record { path = "/bin/demuxer"; chip = "T264"; device = "/dev/ttyUSB0" });
  pts_map = ("CCPLEX: 0", "/dev/pts/7") ∷ [];
  ready_targets = "CCPLEX: 0" ∷ [];
}

register_driver-stale_example :
    let n = register_driver second_driver (unregister_driver "one" printed) in
    (n.1 ≡ none)
    × (n.0.device ≡ some "/dev/ttyUSB9")
    × (n.0.process
        ≡ some (record { path = "/bin/demuxer"; chip = "T264"; device = "/dev/ttyUSB0" }))
    × (get_pts_path "two" n.0 ≡ some "/dev/pts/7")
unfolding register_driver
register_driver-stale_example =
    register_driver-stale printed second_driver "one" "/dev/pts/7" refl refl
