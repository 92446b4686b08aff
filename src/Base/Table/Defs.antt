-- ===== src/Base/Table/Defs.antt =====
-- Lookup by key, `save` of one row (an UPDATE, or an INSERT where the key is new), and UPDATE of
-- the rows that pass a test.
use Prim.Native.Nat.{ℕ}
use mathlib.Core.Bool.{Bool}
use mathlib.Core.Path.{◌≡◌}
use mathlib.Core.Option.{Option, none, some}
use mathlib.Core.List.{List, [], ◌∷◌}
use ava_capture.Base.Tests.{◌==◌, if◌then◌else◌}

module _ {A : Type 0} (key : A → ℕ) where
  unfoldable pub find : ℕ → List A → Option A
  find k [] = none
  find k (x ∷ xs) = if key x == k then some x else find k xs

  unfoldable pub save : A → List A → List A
  save a [] = a ∷ []
  save a (x ∷ xs) = if key x == key a then a ∷ xs else x ∷ save a xs

  -- No key occurs twice.
  abbrev pub IsUnique : List A → Type 0
  IsUnique [] = Unit
  IsUnique (x ∷ xs) = (find (key x) xs ≡ none) × IsUnique xs

unfoldable pub update_where : {A : Type 0} → (A → Bool) → (A → A) → List A → List A
update_where p f [] = []
update_where p f (x ∷ xs) = (if p x then f x else x) ∷ update_where p f xs
