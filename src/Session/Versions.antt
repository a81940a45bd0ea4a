-- ===== src/Session/Versions.antt =====
-- What a client reads off a session's status over a run of updates.
use jumpstarter.Common.{◌+◌, ◌≡◌, refl, some, List, [], ◌∷◌, ◌++◌, String, arith, length}
use jumpstarter.Status.{ExporterStatus, to_proto}
use jumpstarter.Session.{Session, update_status, get_status}

-- The updates of a session, in their order.
unfoldable pub update_all : List (ExporterStatus × String) → Session → Session
update_all [] s = s
update_all ((status, message) ∷ rest) s = update_all rest (update_status status message s)

version-update_all :
    (us : List (ExporterStatus × String)) (s : Session)
    → (update_all us s).status_version ≡ s.status_version + length us
unfolding update_all update_status
version-update_all [] s = omega arith
version-update_all ((status, message) ∷ rest) s =
    omega (arith, version-update_all rest (update_status status message s))

update_all-append :
    (us vs : List (ExporterStatus × String)) (s : Session)
    → update_all (us ++ vs) s ≡ update_all vs (update_all us s)
unfolding update_all
update_all-append [] vs s = refl
update_all-append ((status, message) ∷ rest) vs s =
    update_all-append rest vs (update_status status message s)

-- After any run of updates that ends in two given ones, a status poll shows the last status with
-- its message, the one before it as the previous one, and a version that has grown by the number
-- of updates: no transition leaves the version unchanged.
get_status-update_all :
    (us : List (ExporterStatus × String)) (a b : ExporterStatus) (m n : String) (s : Session)
    → let t = update_all (us ++ (a, m) ∷ (b, n) ∷ []) s in
      ((get_status t).status ≡ to_proto b)
      × ((get_status t).message ≡ n)
      × ((get_status t).previous ≡ some (to_proto a))
      × ((get_status t).version ≡ (get_status s).version + length us + 2)
unfolding get_status update_status update_all
get_status-update_all us a b m n s =
    rw (update_all-append us ((a, m) ∷ (b, n) ∷ []) s)
      (refl, refl, refl, omega (arith, version-update_all us s))
