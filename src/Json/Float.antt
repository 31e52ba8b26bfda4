-- ===== src/Json/Float.antt =====
-- The order and the sign of finite f64, by their bit patterns.
use Prim.Native.Nat.{compare}
use ugoite.Common.{◌+◌, ◌-◌, ◌%◌, ◌^◌, ℕ, Ordering, ◌&&◌, if◌then◌else◌, leb, nat_eq}
use ugoite.Json.{F64}

abbrev sign_bit : ℕ
sign_bit = 2 ^ 63

-- `partial_cmp` of two finite f64, by their bit patterns: sign and magnitude.
unfoldable pub f64_cmp : F64 → F64 → Ordering
f64_cmp a b =
    let x = a % sign_bit in
    let y = b % sign_bit in
    if leb sign_bit a
    then (if leb sign_bit b
        then compare y x
        else (if nat_eq x 0 && nat_eq y 0 then Ordering.eq else Ordering.lt))
    else (if leb sign_bit b
        then (if nat_eq x 0 && nat_eq y 0 then Ordering.eq else Ordering.gt)
        else compare x y)

-- `-n`
unfoldable pub f64_neg : F64 → F64
f64_neg a = if leb sign_bit a then a - sign_bit else a + sign_bit
