-- ===== src/Base/Bytes.antt =====
-- Single bits of a byte, by a table of all bytes.
use Prim.Native.Nat.{ℕ, zero, suc, ◌^◌, ◌<◌, bit_and, bit_or}
use mathlib.Core.Bool.{Bool, true, false, ◌&&◌, ◌||◌, not}
use mathlib.Core.Path.{◌≡◌, refl}
use native.Mathlib.Omega.{arith}
use beaconprobe.Base.Decisions.{ltb, ltb→lt}
use native.Mathlib.Decide.{ℕ_discrete}
use beaconprobe.Base.Decisions.{◌==◌, nat_key}

-- `b & (1 << k) != 0`.
unfoldable pub test_bit : ℕ → ℕ → Bool
test_bit b k = not (bit_and b (2 ^ k) == 0)

-- `b | 1 << k`.
unfoldable pub set_bit : ℕ → ℕ → ℕ
set_bit b k = bit_or b (2 ^ k)

-- The test holds of each number below the bound.
holds_below : (ℕ → Bool) → ℕ → Bool
holds_below test zero = true
holds_below test (suc bound) = holds_below test bound && test bound

holds_at :
    (test : ℕ → Bool) (bound n : ℕ) → n < bound → holds_below test bound ≡ true → test n ≡ true
unfolding holds_below
holds_at test (suc bound) n below h = ground (arith, holds_at test bound n)
holds_at test zero n below h = absurd (omega arith)

same : Bool → Bool → Bool
same true b = b
same false b = not b

same_sound : (a b : Bool) → same a b ≡ true → a ≡ b
unfolding same
same_sound a b h = ground arith

bit_holds : ℕ → ℕ → ℕ → Bool
unfolding test_bit set_bit same
bit_holds b j k = ltb (set_bit b j) 256 && same (test_bit (set_bit b j) k) (j == k || test_bit b k)

holds_of : ℕ → ℕ → Bool
unfolding holds_below bit_holds
holds_of b j = holds_below (bit_holds b j) 8

holds_of_byte : ℕ → Bool
unfolding holds_of
holds_of_byte b = holds_below (holds_of b) 8

table : holds_below holds_of_byte 256 ≡ true
unfolding holds_below holds_of_byte bit_holds ℕ_discrete
table = refl

row : (b j k : ℕ) → b < 256 → j < 8 → k < 8 → bit_holds b j k ≡ true
unfolding holds_of holds_of_byte
row b j k hb hj hk =
    holds_at (bit_holds b j) 8 k hk
      (holds_at (holds_of b) 8 j hj (holds_at holds_of_byte 256 b hb table))

-- A byte stays a byte, and a set bit is the only one that changes.
pub set_bit-lt : (b j : ℕ) → b < 256 → j < 8 → set_bit b j < 256
unfolding bit_holds
set_bit-lt b j hb hj = ltb→lt _ _ (ground (arith, row b j 0 hb hj (omega arith)))

pub test_bit-set_bit :
    (b j k : ℕ) → b < 256 → j < 8 → k < 8 → test_bit (set_bit b j) k ≡ (j == k || test_bit b k)
unfolding bit_holds
test_bit-set_bit b j k hb hj hk = same_sound _ _ (ground (arith, row b j k hb hj hk))

zero_row : holds_below (λ k. not (test_bit 0 k)) 8 ≡ true
unfolding holds_below test_bit ℕ_discrete
zero_row = refl

not-true : (b : Bool) → not b ≡ true → b ≡ false
not-true b h = ground arith

pub test_bit-zero : (k : ℕ) → k < 8 → test_bit 0 k ≡ false
test_bit-zero k h = not-true _ (holds_at (λ k. not (test_bit 0 k)) 8 k h zero_row)
