-- ===== src/Entry/Nanos.antt =====
-- Times in nanoseconds: what is split into seconds and nanoseconds, and put together again
-- (`timestamp_nanos_to_string` and `parse_timestamp_to_nanos`, ugoite-core/src/entry.rs).
use ugoite.Common.{ℕ, ◌+◌, ◌-◌, ◌*◌, ◌/◌, ◌≤◌, ◌<◌, String, ◌≡◌, some, arith}
use ugoite.Entry.Cells.{
  ℤ, pos, negsuc, ColumnCrates, billion_times, add_nanos, split_nanos, parse_timestamp_to_nanos,
}

abbrev IsI64 : ℤ → Type 0
IsI64 (pos n) = n < 9223372036854775808
IsI64 (negsuc n) = n < 9223372036854775808

-- Whether the seconds that a time is split into can be scaled back.
abbrev IsMultiple : ℤ → Type 0
IsMultiple (pos n) = Unit
IsMultiple (negsuc n) = n / 1000000000 * 1000000000 + 999999999 < 9223372036854775808

-- A 64-bit time that is split into seconds and nanoseconds is put together again as it was, where
-- the whole seconds at or before it are a 64-bit number of nanoseconds.
pub add_nanos-split_nanos :
    (t : ℤ)
    → IsI64 t
    → IsMultiple t
    → add_nanos (billion_times (split_nanos t).0) (split_nanos t).1 ≡ t
unfolding add_nanos billion_times split_nanos
add_nanos-split_nanos (pos n) h k = ground arith
add_nanos-split_nanos (negsuc n) h k = ground arith

-- A time after the year 2262, with a fraction of a second, is read as a time before 1970: the product
-- is held at the largest 64-bit number, and adding to it wraps around.
pub parse_timestamp_to_nanos-wraps :
    (crates : ColumnCrates) (value : String) (seconds nanos : ℕ)
    → crates.rfc3339_seconds value ≡ some (pos seconds, nanos)
    → 9223372037 ≤ seconds
    → 0 < nanos
    → nanos ≤ 999999999
    → (n : ℕ) × (parse_timestamp_to_nanos crates value ≡ some (negsuc n))
unfolding parse_timestamp_to_nanos billion_times add_nanos
parse_timestamp_to_nanos-wraps crates value seconds nanos e late some_nanos few =
    (9223372036854775808 - nanos, rw e (ground arith))
