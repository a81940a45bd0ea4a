-- ===== src/Demuxer/Stale.antt =====
-- A path that outlives the driver that it was found for.
use jumpstarter.Common.{none, String, ◌≡◌, ◌∷◌, [], dict_get, some, none, arith, str_eq_refl}
use jumpstarter.Demuxer.{register_driver, unregister_driver, get_pts_path, Manager, Registration}

-- When the only driver is unregistered and another one is registered for the same target, with
-- whatever device: the registration is accepted and the manager has the new device, but the process
-- for the old one is left running, and the new driver is given the path that it has printed.
pub register_driver-stale :
    (m : Manager) (r : Registration) (id path : String)
    → m.drivers ≡ (id, r.target) ∷ []
    → dict_get r.target m.pts_map ≡ some path
    → let n = register_driver r (unregister_driver id m) in
      (n.1 ≡ none)
      × (n.0.device ≡ some r.device)
      × (n.0.process ≡ m.process)
      × (get_pts_path r.driver_id n.0 ≡ some path)
unfolding register_driver unregister_driver get_pts_path
register_driver-stale m r id path alone known =
    rw alone (ground (arith, str_eq_refl id, str_eq_refl r.driver_id, known))
