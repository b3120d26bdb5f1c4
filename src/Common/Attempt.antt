-- ===== src/Common/Attempt.antt =====
-- How a call of a Go function ends: with a value, with an error, or in a panic that nothing recovers from.
use Prim.Native.Nat.{ℕ}
use mathlib.Core.List.{List, [], ◌∷◌}
use aquatiq_root.Common.Tests.{if◌then◌else◌, leb}
use aquatiq_root.Common.Bytes.{Text}
use aquatiq_root.Common.Lists.{length, take}

pub data Attempt (A : Type 0) : Type 0 where
  returned : A → Attempt A
  failed : Text → Attempt A
  panicked : Attempt A

-- What follows a call: it runs on the value, and an error or a panic is passed on.
infixl 5 ◌>>=◌
abbrev pub ◌>>=◌ : {A B : Type 0} → Attempt A → (A → Attempt B) → Attempt B
returned a >>= k = k a
failed e >>= k = failed e
panicked >>= k = panicked

-- `s[:n]`, which panics where `s` is shorter.
abbrev pub slice_to : ℕ → Text → Attempt Text
slice_to n s = if leb n (length s) then returned (take n s) else panicked

-- `s[1:]`, which panics where `s` is empty.
abbrev pub slice_from_one : Text → Attempt Text
slice_from_one [] = panicked
slice_from_one (c ∷ s) = returned s

-- A loop that appends what its body makes of each element, and ends with the body's first failure.
unfoldable pub each : {A B : Type 0} → (A → Attempt B) → List A → Attempt (List B)
each f [] = returned []
each f (x ∷ xs) = do y ← f x; ys ← each f xs; returned (y ∷ ys)
