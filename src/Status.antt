-- ===== src/Status.antt =====
-- common/enums.py: the exporter's status and its numbers in the protocol.
use jumpstarter.Common.{ℕ, Bool, Option, none, some, ◌==◌, if◌then◌else◌, ◌≡◌, arith, ◌↔◌}

pub data ExporterStatus : Type 0 where
  unspecified offline available before_lease_hook lease_ready after_lease_hook : ExporterStatus
  before_lease_hook_failed after_lease_hook_failed : ExporterStatus

-- `to_proto`: the values of the protocol's enum, protocol/proto/jumpstarter/v1/common.proto
abbrev pub to_proto : ExporterStatus → ℕ
to_proto unspecified = 0
to_proto offline = 1
to_proto available = 2
to_proto before_lease_hook = 3
to_proto lease_ready = 4
to_proto after_lease_hook = 5
to_proto before_lease_hook_failed = 6
to_proto after_lease_hook_failed = 7

-- `from_proto`: `none` is the `ValueError` of an unknown number
unfoldable pub from_proto : ℕ → Option ExporterStatus
from_proto n =
    if n == 0
    then some unspecified
    else if n == 1
    then some offline
    else if n == 2
    then some available
    else if n == 3
    then some before_lease_hook
    else if n == 4
    then some lease_ready
    else if n == 5
    then some after_lease_hook
    else if n == 6
    then some before_lease_hook_failed
    else if n == 7
    then some after_lease_hook_failed
    else none

-- `==` of an `IntEnum`
abbrev pub status_eq : ExporterStatus → ExporterStatus → Bool
status_eq a b = to_proto a == to_proto b

-- A number read from the protocol and a status written to it correspond, both ways: a status
-- is read back from its number, and whatever number is read as a status is that status's.
from_proto-to_proto : (n : ℕ) (s : ExporterStatus) → (from_proto n ≡ some s) ↔ (to_proto s ≡ n)
unfolding from_proto
from_proto-to_proto n s = ground arith
