-- ===== src/Names/Fresh.antt =====
-- The loops for a free name.
use Prim.Native.String.{◌++◌ as ◌<>◌}
use text.Mathlib.TextLemmas.{cons-append, nil-append, tail-eq_of_cons-eq}
use ava_capture.Base.{
  ℕ, zero, suc, ◌+◌, ◌<◌, ◌≤◌, ◌≡◌, ◌≢◌, refl, ◌∙◌, sym, ap, subst, String, false, Bool-cases, ◌⊎◌,
  inl, inr, List, [], ◌∷◌, In, length, arith, contains_text, contains_text→In,
}
use ava_capture.Names.{
  first_free, rounds, numbered, padded, value_from, unique_shot_name, unique_session_name,
  numbering, or_shot, clean, split_number,
}
use ava_capture.Names.Numerals.{value_from-padded}

-- The list without its first `x`.
without_first : {A : Type 0} (x : A) (xs : List A) → In x xs → List A
without_first x [] m = []
without_first x (y ∷ ys) (inl e) = ys
without_first x (y ∷ ys) (inr m) = y ∷ without_first x ys m

module _ {A : Type 0} where
  length-without_first :
      (x : A) (xs : List A) (m : In x xs) → suc (length (without_first x xs m)) ≡ length xs
  unfolding without_first
  length-without_first x [] m = absurd m
  length-without_first x (y ∷ ys) (inl e) = refl
  length-without_first x (y ∷ ys) (inr m) = ap suc (length-without_first x ys m)

  In-without_first :
      (x z : A) (xs : List A) (m : In x xs) → In z xs → z ≢ x → In z (without_first x xs m)
  unfolding without_first
  In-without_first x z [] m there other = there
  In-without_first x z (y ∷ ys) (inl e) (inl f) other = absurd (other (f ∙ sym e))
  In-without_first x z (y ∷ ys) (inl e) (inr there) other = there
  In-without_first x z (y ∷ ys) (inr m) (inl f) other = inl f
  In-without_first x z (y ∷ ys) (inr m) (inr there) other =
      inr (In-without_first x z ys m there other)

module _ (candidate : ℕ → String) (distinct : (i j : ℕ) → candidate i ≡ candidate j → i ≡ j) where
  -- No list has more different candidates than elements.
  count-le_length :
      (n i : ℕ) (taken : List String)
      → ((k : ℕ) → k < n → In (candidate (i + k)) taken)
      → n ≤ length taken
  count-le_length zero i taken all = omega arith
  count-le_length (suc n) i taken all =
      let first : In (candidate i) taken =
        subst (λ k. In (candidate k) taken) (add-zero i) (all 0 (omega arith)) in
      let fits : n ≤ length (without_first (candidate i) taken first) =
        count-le_length n (suc i) (without_first (candidate i) taken first) (λ k below.
          In-without_first (candidate i) (candidate (suc i + k)) taken first
            (subst (λ m. In (candidate m) taken) (add-suc i k) (all (suc k) (omega arith)))
            (λ e. omega (arith, distinct (suc i + k) i e))) in
      omega (arith, fits, length-without_first (candidate i) taken first)
    where
      add-zero : (m : ℕ) → m + 0 ≡ m
      add-zero m = omega arith

      add-suc : (m k : ℕ) → m + suc k ≡ suc m + k
      add-suc m k = omega arith

  -- A loop that ends on a taken name has found its first name and all its candidates but the last
  -- taken.
  first_free-cases :
      (taken : List String) (fuel i : ℕ) (name : String)
      → (contains_text taken (first_free candidate taken fuel i name) ≡ false)
        ⊎ (0 < fuel → In name taken) × ((k : ℕ) → suc k < fuel → In (candidate (i + k)) taken)
  unfolding first_free
  first_free-cases taken zero i name =
      inr ((λ below. absurd (omega arith)), λ k below. absurd (omega arith))
  first_free-cases taken (suc fuel) i name = elim (Bool-cases (contains_text taken name)) [
    | inr free ↦ inl (rw free free)
    | inl used ↦ elim (first_free-cases taken fuel (suc i) (candidate i)) [
      | inl found ↦ inl (rw used found)
      | inr (first, more) ↦
          inr ((λ below. contains_text→In taken name used), λ k below. earlier k below first more)
    ]
  ]
    where
      earlier :
          (k : ℕ)
          → suc k < suc fuel
          → (0 < fuel → In (candidate i) taken)
          → ((m : ℕ) → suc m < fuel → In (candidate (suc i + m)) taken)
          → In (candidate (i + k)) taken
      earlier zero below first more =
          subst (λ m. In (candidate m) taken) (omega arith) (first (omega arith))
      earlier (suc k) below first more =
          subst (λ m. In (candidate m) taken) (omega arith) (more k (omega arith))

  -- With a round for each taken name and two more, the loop ends on a free name.
  first_free-fresh :
      (taken : List String) (i : ℕ) (name : String)
      → contains_text taken (first_free candidate taken (rounds taken) i name) ≡ false
  first_free-fresh taken i name = elim (first_free-cases taken (rounds taken) i name) [
    | inl found ↦ found
    | inr (_, all) ↦ absurd (
        omega
          (arith, count-le_length (suc (length taken)) i taken (λ k below. all k (omega arith))))
  ]

append_cancel : (p s t : String) → p <> s ≡ p <> t → s ≡ t
append_cancel String.[] s t e = sym (nil-append s) ∙ e ∙ nil-append t
append_cancel (String.◌∷◌ c p) s t e =
    append_cancel p s t (tail-eq_of_cons-eq (sym (cons-append c p s) ∙ e ∙ cons-append c p t))

-- Different numbers give different names.
numbered-distinct : (prefix : String) (i j : ℕ) → numbered prefix i ≡ numbered prefix j → i ≡ j
numbered-distinct prefix i j e =
    sym (value_from-padded 3 i)
    ∙ ap (value_from 0) (append_cancel prefix (padded 3 i) (padded 3 j) e)
    ∙ value_from-padded 3 j

-- The loops of `unique_shot_name` and of `post_new_session` end, after at most two rounds more than
-- there are taken names, and the name that they end on is not taken.
pub unique_names_fresh :
    (given wanted : String) (taken : List String)
    → (contains_text taken (unique_shot_name wanted taken) ≡ false)
      × (contains_text taken (unique_session_name given wanted taken) ≡ false)
unfolding unique_shot_name unique_session_name
unique_names_fresh given wanted taken =
    let name = or_shot (clean wanted) in
    let (prefix, i) = numbering name (split_number name) in
    (
      first_free-fresh (numbered prefix) (numbered-distinct prefix) taken i name,
      first_free-fresh (numbered (given <> "_")) (numbered-distinct (given <> "_")) taken 0 wanted,
    )
