-- ===== src/Base/Int.antt =====
-- Signed integers over the native numbers; the source's `int` takes its values in 32 bits.
use Prim.Native.Nat.{ℕ, ◌-◌, ◌≤◌, ◌%◌}
use native.Mathlib.Omega.{arith}
use mathlib.Core.Path.{◌≡◌}
use mathlib.Core.Bool.{Bool, true, false}
use dpp_bot.Base.Tests.{leb, ltb, if◌then◌else◌}

-- `negsuc n` is -(n + 1).
pub data ℤ : Type 0 where
  pos : ℕ → ℤ
  negsuc : ℕ → ℤ

abbrev pub is_positive : ℤ → Bool
is_positive (pos n) = ltb 0 n
is_positive (negsuc n) = false

abbrev pub pos_part : ℤ → ℕ
pos_part (pos n) = n
pos_part (negsuc n) = 0

abbrev pub int_mod : ℕ
int_mod = 4294967296

abbrev pub int_max : ℕ
int_max = 2147483647

-- `static_cast<int>` of a `size_t`: the low 32 bits, read as a signed number.
unfoldable pub int_of_size : ℕ → ℤ
int_of_size n =
    let low = n % int_mod in if leb low int_max then pos low else negsuc (int_mod - low - 1)

abbrev pub leb_ℤ : ℤ → ℤ → Bool
leb_ℤ (pos a) (pos b) = leb a b
leb_ℤ (pos a) (negsuc b) = false
leb_ℤ (negsuc a) (pos b) = true
leb_ℤ (negsuc a) (negsuc b) = leb b a

pub int_of_size_small : (n : ℕ) → n ≤ int_max → int_of_size n ≡ pos n
unfolding int_of_size
int_of_size_small n h = ground arith
