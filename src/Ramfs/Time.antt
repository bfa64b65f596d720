-- ===== src/Ramfs/Time.antt =====
-- `current_time` of ramfs/src/filesystem.rs.
use eos_base.Base.{ℕ, ◌^◌, ◌-◌, ltb, if◌then◌else◌}
use eos_base.Base.Int.{pos, negsuc}
use eos_base.Ramfs.{TimeSpec}

-- What `SystemTime::now().duration_since(UNIX_EPOCH)` gives: the whole seconds and the nanoseconds
-- since the epoch, or until it.
pub data SinceEpoch : Type 0 where
  since : ℕ → ℕ → SinceEpoch
  until : ℕ → ℕ → SinceEpoch

-- A number that does not fit becomes the least number in one branch and the greatest in the other.
unfoldable pub current_time : SinceEpoch → TimeSpec
current_time (since secs nanos) = record {
  tv_sec = if ltb secs (2 ^ 63) then pos secs else pos (2 ^ 63 - 1);
  tv_nsec = nanos;
}
current_time (until secs nanos) = record {
  tv_sec = if ltb secs (2 ^ 63) then pos secs else negsuc (2 ^ 63 - 1);
  tv_nsec = nanos;
}
