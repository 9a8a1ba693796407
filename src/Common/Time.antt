-- ===== src/Common/Time.antt =====
-- `std::time::Duration` and `Instant` as numbers of nanoseconds. `Instant` counts from an origin
-- that no caller sees; a difference of instants stops at zero, as `elapsed` does.
use Prim.Native.Nat.{ℕ, ◌*◌, ◌/◌}

abbrev pub Duration : Type 0
Duration = ℕ

abbrev pub Instant : Type 0
Instant = ℕ

abbrev pub from_millis : ℕ → Duration
from_millis ms = ms * 1_000_000

abbrev pub as_millis : Duration → ℕ
as_millis d = d / 1_000_000

abbrev pub as_micros : Duration → ℕ
as_micros d = d / 1_000
