-- ===== src/Base/Lists.antt =====
-- Lists measured by native numbers, tests over a list, and membership by recursion.
use Prim.Native.Nat.{ℕ, zero, suc, ◌≤◌, ◌<◌}
use Prim.Native.String.{String}
use mathlib.Core.Path.{◌≡◌, refl, sym, subst}
use mathlib.Core.Logic.{◌⊎◌, inl, inr}
use mathlib.Core.Bool.{Bool, true, false, ◌||◌}
use mathlib.Core.Option.{Option, none, some}
use mathlib.Core.List.{List, [], ◌∷◌, ◌++◌}
use native.Mathlib.Omega.{arith}
use text.Mathlib.TextEquality.{eq_iff}
use text.Mathlib.Text.{◌==◌ as str_eq}
use ava_capture.Base.Tests.{◌==◌, if◌then◌else◌, Bool-cases}

module _ {ℓ} {A : Type ℓ} where
  abbrev pub length : List A → ℕ
  length [] = 0
  length (x ∷ xs) = suc (length xs)

  -- The elements that pass a test, in order.
  unfoldable pub select : (A → Bool) → List A → List A
  select p [] = []
  select p (x ∷ xs) = if p x then x ∷ select p xs else select p xs

  -- How many elements pass a test.
  unfoldable pub count_where : (A → Bool) → List A → ℕ
  count_where p [] = 0
  count_where p (x ∷ xs) = if p x then suc (count_where p xs) else count_where p xs

  unfoldable pub any_of : (A → Bool) → List A → Bool
  any_of p [] = false
  any_of p (x ∷ xs) = p x || any_of p xs

  -- The first `n` elements, and the others.
  abbrev pub take : ℕ → List A → List A
  take zero xs = []
  take (suc n) [] = []
  take (suc n) (x ∷ xs) = x ∷ take n xs

  abbrev pub drop : ℕ → List A → List A
  drop zero xs = xs
  drop (suc n) [] = []
  drop (suc n) (x ∷ xs) = drop n xs

  abbrev pub head? : List A → Option A
  head? [] = none
  head? (x ∷ xs) = some x

-- `a` is one of the elements.
abbrev pub In : {A : Type 0} → A → List A → Type 0
In a [] = ⊥
In a (x ∷ xs) = (a ≡ x) ⊎ In a xs

-- Every element satisfies `P`.
abbrev pub All : {A : Type 0} → (A → Type 0) → List A → Type 0
All P [] = Unit
All P (x ∷ xs) = P x × All P xs

abbrev pub contains : List ℕ → ℕ → Bool
contains [] k = false
contains (x ∷ xs) k = k == x || contains xs k

abbrev pub contains_text : List String → String → Bool
contains_text [] k = false
contains_text (x ∷ xs) k = str_eq k x || contains_text xs k

module _ {A : Type 0} where
  pub In-select : (p : A → Bool) (a : A) (xs : List A) → In a (select p xs) → In a xs × (p a ≡ true)
  unfolding select
  In-select p a [] m = elim m [ ]
  In-select p a (x ∷ xs) m = elim (Bool-cases (p x)) [
    | inl yes_x ↦ ground (arith, In-select p a xs)
    | inr no_x ↦ ground (arith, In-select p a xs)
  ]

  pub select-In : (p : A → Bool) (a : A) (xs : List A) → In a xs → p a ≡ true → In a (select p xs)
  unfolding select
  select-In p a [] m h = m
  select-In p a (x ∷ xs) m h = ground (arith, select-In p a xs)

  pub count_where-le : (p : A → Bool) (xs : List A) → count_where p xs ≤ length xs
  unfolding count_where
  count_where-le p [] = omega arith
  count_where-le p (x ∷ xs) = ground (arith, count_where-le p xs)

  -- A count is zero exactly when no element passes.
  pub count_where_zero :
      (p : A → Bool) (xs : List A) (a : A) → count_where p xs ≡ 0 → In a xs → p a ≡ false
  unfolding count_where
  count_where_zero p [] a h m = elim m [ ]
  count_where_zero p (x ∷ xs) a h m = ground (arith, count_where_zero p xs a)

  pub count_where_pos :
      (p : A → Bool) (xs : List A) (a : A) → In a xs → p a ≡ true → 0 < count_where p xs
  unfolding count_where
  count_where_pos p [] a m h = elim m [ ]
  count_where_pos p (x ∷ xs) a m h = ground (arith, count_where_pos p xs a)

-- The tests for membership decide it.
pub contains_text→In : (xs : List String) (k : String) → contains_text xs k ≡ true → In k xs
contains_text→In [] k h = absurd (cc)
contains_text→In (x ∷ xs) k h = ground (arith, eq_iff k x, contains_text→In xs k)

pub In→contains_text : (xs : List String) (k : String) → In k xs → contains_text xs k ≡ true
In→contains_text [] k m = elim m [ ]
In→contains_text (x ∷ xs) k m = ground (arith, eq_iff k x, In→contains_text xs k)

pub contains→In : (xs : List ℕ) (k : ℕ) → contains xs k ≡ true → In k xs
contains→In [] k h = absurd (cc)
contains→In (x ∷ xs) k h = ground (arith, contains→In xs k)

pub In→contains : (xs : List ℕ) (k : ℕ) → In k xs → contains xs k ≡ true
In→contains [] k m = elim m [ ]
In→contains (x ∷ xs) k m = ground (arith, In→contains xs k)

-- A test over a list holds exactly when one of the elements passes.
pub any_of→In :
    {A : Type 0} (p : A → Bool) (xs : List A)
    → any_of p xs ≡ true
    → (a : A) × In a xs × (p a ≡ true)
unfolding any_of
any_of→In p [] h = absurd (cc)
any_of→In p (x ∷ xs) h = elim (Bool-cases (p x)) [
  | inl hit ↦ (x, inl refl, hit)
  | inr miss ↦
      let later : any_of p xs ≡ true = ground arith in
      let (a, m, hit) = any_of→In p xs later in (a, inr m, hit)
]

pub In→any_of :
    {A : Type 0} (p : A → Bool) (a : A) (xs : List A) → In a xs → p a ≡ true → any_of p xs ≡ true
unfolding any_of
In→any_of p a [] m h = elim m [ ]
In→any_of p a (x ∷ xs) m h = ground (arith, In→any_of p a xs)

pub count_where_none :
    {A : Type 0} (p : A → Bool) (xs : List A)
    → ((a : A) → In a xs → p a ≡ true → ⊥)
    → count_where p xs ≡ 0
unfolding count_where
count_where_none p [] h = refl
count_where_none p (x ∷ xs) h = elim (Bool-cases (p x)) [
  | inl hit ↦ absurd (h x (inl refl) hit)
  | inr miss ↦ rw miss (count_where_none p xs (λ a m. h a (inr m)))
]

pub All-In : {A : Type 0} (P : A → Type 0) (xs : List A) (a : A) → All P xs → In a xs → P a
All-In P [] a h m = elim m [ ]
All-In P (x ∷ xs) a h m = elim m [
  | inl e ↦ subst P (sym e) h.0
  | inr later ↦ All-In P xs a h.1 later
]

pub All-map :
    {A : Type 0} (P Q : A → Type 0) (xs : List A) → ((a : A) → P a → Q a) → All P xs → All Q xs
All-map P Q [] f h = tt
All-map P Q (x ∷ xs) f h = (f x h.0, All-map P Q xs f h.1)

-- Membership in a list that is put together.
module _ {A : Type 0} where
  pub In-append_left : (a : A) (xs ys : List A) → In a xs → In a (xs ++ ys)
  In-append_left a [] ys m = elim m [ ]
  In-append_left a (x ∷ xs) ys m = elim m [
    | inl e ↦ inl e
    | inr later ↦ inr (In-append_left a xs ys later)
  ]

  pub In-append_right : (a : A) (xs ys : List A) → In a ys → In a (xs ++ ys)
  In-append_right a [] ys m = m
  In-append_right a (x ∷ xs) ys m = inr (In-append_right a xs ys m)

  pub In-append_last : (a : A) (xs : List A) → In a (xs ++ a ∷ [])
  In-append_last a xs = In-append_right a xs (a ∷ []) (inl refl)
