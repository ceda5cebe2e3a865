-- ===== src/Shared/Clock.antt =====
-- `time.Time` as signed nanoseconds from Go's zero time, without the range of `time.Duration`.
use Prim.Native.Nat.{ℕ, ◌+◌, ◌*◌, ◌-◌}
use mathlib.Core.Path.{◌≡◌, refl}
use mathlib.Core.Bool.{Bool}
use native.Mathlib.Omega.{arith}
use munchkin.Shared.Logic.{◌==◌}
use munchkin.Shared.Numbers.{ℤ, pos, negsuc, ltb_ℤ, ◌+ℤ◌, ℤ-Eq, pos_part, neg_part}

abbrev pub Time : Type 0
Time = ℤ

abbrev pub zero_time : Time
zero_time = pos 0

abbrev pub is_zero : Time → Bool
is_zero t = t == zero_time

abbrev pub before : Time → Time → Bool
before = ltb_ℤ

abbrev pub after : Time → Time → Bool
after s t = ltb_ℤ t s

abbrev pub nanos : ℕ
nanos = 1000000000

-- `time.Duration(n) * time.Second`.
unfoldable pub seconds : ℤ → ℤ
seconds (pos n) = pos (n * nanos)
seconds (negsuc n) = negsuc (n * nanos + (nanos - 1))

-- `t.Add(time.Duration(n) * time.Second)`.
abbrev pub add_seconds : Time → ℤ → Time
add_seconds t n = t +ℤ seconds n

pub seconds_parts :
    (n : ℤ)
    → (pos_part (seconds n) ≡ pos_part n * 1000000000)
      × (neg_part (seconds n) ≡ neg_part n * 1000000000)
unfolding seconds
seconds_parts (pos n) = (refl, refl)
seconds_parts (negsuc n) = (refl, omega arith)
