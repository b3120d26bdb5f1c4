-- ===== src/Common/Int.antt =====
-- Go's signed integers, over the native numbers; `negsuc n` is -(n + 1). Where a width matters the
-- wrap-around is written where it happens.
use Prim.Native.Nat.{ℕ, zero, suc, ◌+◌, ◌-◌, ◌*◌, ◌/◌, ◌%◌, ◌<◌}
use mathlib.Core.Path.{◌≡◌, refl}
use mathlib.Core.Bool.{Bool}
use mathlib.Core.List.{[], ◌∷◌, ◌++◌}
use native.Mathlib.Omega.{arith}
use aquatiq_root.Common.Tests.{ltb, ◌==◌, if◌then◌else◌}
use aquatiq_root.Common.Bytes.{Text}

pub data ℤ : Type 0 where
  pos : ℕ → ℤ
  negsuc : ℕ → ℤ

abbrev pub pos_part : ℤ → ℕ
pos_part (pos n) = n
pos_part (negsuc n) = 0

abbrev pub neg_part : ℤ → ℕ
neg_part (pos n) = 0
neg_part (negsuc n) = suc n

abbrev pub ltb_ℤ : ℤ → ℤ → Bool
ltb_ℤ a b = ltb (pos_part a + neg_part b) (pos_part b + neg_part a)

-- `n / 2` rounds towards zero.
abbrev pub half : ℤ → ℤ
half (pos n) = pos (n / 2)
half (negsuc n) = if suc n / 2 == 0 then pos 0 else negsuc (suc n / 2 - 1)

-- `%d` of a number that is not negative. The first argument bounds the digits.
unfoldable pub digits_of : ℕ → ℕ → Text
digits_of zero n = []
digits_of (suc fuel) n =
    let front = digits_of fuel (n / 10) in
    if ltb n 10 then (48 + n) ∷ [] else front ++ (48 + n % 10) ∷ []

unfoldable pub decimal : ℕ → Text
unfolding digits_of
decimal n = digits_of (suc n) n

unfoldable pub decimal_ℤ : ℤ → Text
decimal_ℤ (pos n) = decimal n
decimal_ℤ (negsuc n) = b'-' ∷ decimal (suc n)

-- The digits back to the number: enough fuel is given, so nothing is lost.
value_of : ℕ → Text → ℕ
value_of acc [] = acc
value_of acc (c ∷ s) = value_of (acc * 10 + (c - 48)) s

value_of-append :
    (acc c : ℕ) (s : Text) → value_of acc (s ++ c ∷ []) ≡ value_of acc s * 10 + (c - 48)
unfolding value_of
value_of-append acc c [] = refl
value_of-append acc c (d ∷ s) = value_of-append (acc * 10 + (d - 48)) c s

value_of-digits_of : (fuel n : ℕ) → n < fuel → value_of 0 (digits_of fuel n) ≡ n
unfolding digits_of value_of
value_of-digits_of zero n h = elim h [ ]
value_of-digits_of (suc fuel) n h = ground (
  arith,
  value_of-append 0 (48 + n % 10) (digits_of fuel (n / 10)),
  value_of-digits_of fuel (n / 10),
)

-- Different numbers are printed differently.
pub decimal_injective : (a b : ℕ) → decimal a ≡ decimal b → a ≡ b
unfolding decimal
decimal_injective a b h =
    cc (value_of-digits_of (suc a) a (omega arith), value_of-digits_of (suc b) b (omega arith))
