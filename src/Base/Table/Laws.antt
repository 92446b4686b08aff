-- ===== src/Base/Table/Laws.antt =====
-- What the table operations do to lookups, membership and counts.
use Prim.Native.Nat.{ℕ, ◌+◌}
use mathlib.Core.Bool.{Bool}
use mathlib.Core.Path.{◌≡◌, refl, sym, subst}
use mathlib.Core.Logic.{◌⊎◌, inl, inr, ◌≢◌}
use mathlib.Core.Option
use mathlib.Core.Option.{Option, none, some}
use mathlib.Core.List.{List, [], ◌∷◌}
use native.Mathlib.Omega.{arith}
use ava_capture.Base.Tests.{◌==◌, if◌then◌else◌, Bool-cases}
use ava_capture.Base.Lists.{In, select, count_where}
use ava_capture.Base.Table.Defs.{find, save, IsUnique, update_where}

module _ {A : Type 0} (key : A → ℕ) where
  pub find-save :
      (k : ℕ) (a : A) (xs : List A)
      → find key k (save key a xs) ≡ (if key a == k then some a else find key k xs)
  unfolding find save
  find-save k a [] = refl
  find-save k a (x ∷ xs) = ground (arith, find-save k a xs)

  pub find-In : (k : ℕ) (a : A) (xs : List A) → find key k xs ≡ some a → In a xs × (key a ≡ k)
  unfolding find
  find-In k a [] h = absurd (cc)
  find-In k a (x ∷ xs) h = ground (arith, find-In k a xs)

  -- What is found stands under its own key.
  pub find_self :
      (k : ℕ) (a : A) (xs : List A) → find key k xs ≡ some a → find key (key a) xs ≡ some a
  find_self k a xs h = subst (λ i. find key i xs ≡ some a) (sym (find-In k a xs h).1) h

  pub In-find : (a : A) (xs : List A) → IsUnique key xs → In a xs → find key (key a) xs ≡ some a
  unfolding find
  In-find a [] u m = elim m [ ]
  In-find a (x ∷ xs) u m = ground (arith, In-find a xs u.1)

  pub save-IsUnique : (a : A) (xs : List A) → IsUnique key xs → IsUnique key (save key a xs)
  unfolding save find
  save-IsUnique a [] u = (refl, tt)
  save-IsUnique a (x ∷ xs) u = ground (arith, save-IsUnique a xs u.1, find-save (key x) a xs)

  pub In-save : (a b : A) (xs : List A) → In b (save key a xs) → (b ≡ a) ⊎ In b xs
  unfolding save
  In-save a b [] m = ground arith
  In-save a b (x ∷ xs) m = ground (arith, In-save a b xs)

  pub save-In_self : (a : A) (xs : List A) → In a (save key a xs)
  unfolding save
  save-In_self a [] = ground arith
  save-In_self a (x ∷ xs) = ground (arith, save-In_self a xs)

  -- Where a row is replaced, a count loses the old row and gains the new one.
  pub count_where-save :
      (p : A → Bool) (a old : A) (xs : List A)
      → find key (key a) xs ≡ some old
      → count_where p (save key a xs) + (if p old then 1 else 0)
        ≡ count_where p xs + (if p a then 1 else 0)
  unfolding save count_where find
  count_where-save p a old [] h = absurd (cc)
  count_where-save p a old (x ∷ xs) h = ground (arith, count_where-save p a old xs)

  pub find-update_where :
      (p : A → Bool) (f : A → A) (k : ℕ) (xs : List A)
      → ((a : A) → key (f a) ≡ key a)
      → find key k (update_where p f xs) ≡ Option.map (λ a. if p a then f a else a) (find key k xs)
  unfolding find update_where
  find-update_where p f k [] h = refl
  find-update_where p f k (x ∷ xs) h = ground (arith, h x, find-update_where p f k xs h)

  pub update_where-IsUnique :
      (p : A → Bool) (f : A → A) (xs : List A)
      → ((a : A) → key (f a) ≡ key a)
      → IsUnique key xs
      → IsUnique key (update_where p f xs)
  unfolding find update_where
  update_where-IsUnique p f [] h u = tt
  update_where-IsUnique p f (x ∷ xs) h u =
      ground (arith, h x, update_where-IsUnique p f xs h u.1, find-update_where p f (key x) xs h)

  pub find-select-none :
      (p : A → Bool) (k : ℕ) (xs : List A) → find key k xs ≡ none → find key k (select p xs) ≡ none
  unfolding find select
  find-select-none p k [] h = refl
  find-select-none p k (x ∷ xs) h = ground (arith, find-select-none p k xs)

  pub select-IsUnique : (p : A → Bool) (xs : List A) → IsUnique key xs → IsUnique key (select p xs)
  unfolding select
  select-IsUnique p [] u = tt
  select-IsUnique p (x ∷ xs) u =
      ground (arith, select-IsUnique p xs u.1, find-select-none p (key x) xs u.0)

  pub find-select :
      (p : A → Bool) (k : ℕ) (xs : List A)
      → IsUnique key xs
      → find key k (select p xs)
        ≡ elim (find key k xs) [ none ↦ none | some a ↦ if p a then some a else none ]
  unfolding find select
  find-select p k [] u = refl
  find-select p k (x ∷ xs) u = elim (Bool-cases (p x)) [
    | inl hit ↦ ground (arith, find-select p k xs u.1)
    | inr miss ↦ ground (arith, find-select p k xs u.1, find-select-none p k xs)
  ]

pub In-update_where :
    {A : Type 0} (p : A → Bool) (f : A → A) (b : A) (xs : List A)
    → In b (update_where p f xs)
    → (a : A) × In a xs × (b ≡ (if p a then f a else a))
unfolding update_where
In-update_where p f b [] m = elim m [ ]
In-update_where p f b (x ∷ xs) m = elim m [
  | inl e ↦ (x, inl refl, e)
  | inr later ↦ let (a, there, e) = In-update_where p f b xs later in (a, inr there, e)
]

-- Where keys are unique, a row that is there after a save is the saved one, or an older one with
-- another key.
pub In-save_unique :
    {A : Type 0} (key : A → ℕ) (a b : A) (xs : List A)
    → IsUnique key xs
    → In b (save key a xs)
    → (b ≡ a) ⊎ In b xs × (key b ≢ key a)
In-save_unique key a b xs u m =
    let found = In-find key b (save key a xs) (save-IsUnique key a xs u) m in
    let saved = find-save key (key b) a xs in
    elim (Bool-cases (key a == key b)) [
      | inl same ↦ inl (ground arith)
      | inr other ↦
          let older : find key (key b) xs ≡ some b = ground arith in
          inr ((find-In key (key b) b xs older).0, ground arith)
    ]
