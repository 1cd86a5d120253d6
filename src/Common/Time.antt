-- ===== src/Common/Time.antt =====
-- `std::time`. A `Duration` and an `Instant` are numbers of nanoseconds, the latter since the
-- origin of the monotonic clock, whose seconds are an `i64`.
use Prim.Native.Nat.{ℕ, ◌+◌, ◌*◌, ◌/◌, ◌^◌}
use mathlib.Core.Option.{Option, none, some}
use meshlet.Common.Tests.{ltb, if◌then◌else◌}

abbrev pub Instant : Type 0
Instant = ℕ

abbrev pub Duration : Type 0
Duration = ℕ

abbrev pub nanos_per_sec : ℕ
nanos_per_sec = 1_000_000_000

abbrev pub instant_limit : ℕ
instant_limit = 2 ^ 63 * 1_000_000_000

abbrev pub from_secs : ℕ → Duration
from_secs s = s * nanos_per_sec

abbrev pub as_secs : Duration → ℕ
as_secs d = d / nanos_per_sec

-- `Instant::checked_add`
abbrev pub checked_add : Instant → Duration → Option Instant
checked_add now d = if ltb (now + d) instant_limit then some (now + d) else none
