-- ===== src/Sequence/Frames.antt =====
-- What the data of a missing frame is, and that reads stay below the index.
use mathlib.Core.Option.{some-injective}
use ava_capture.Base.{
  ℕ, zero, suc, ◌+◌, ◌-◌, ◌≤◌, ◌<◌, ◌≡◌, ◌⊎◌, refl, ◌∙◌, sym, ap, subst, ltb, leb, if◌then◌else◌,
  true, false, ◌&&◌, some, List, [], ◌∷◌, length, arith, inl, inr, Bool-cases,
}
use ava_capture.Base.Int.{ℤ, pos}
use ava_capture.Sequence.{
  Reader, Skip, offset, nothing, Outcome, fine, fails, is_missing, missing_frame, entry, skip_back,
  region, skip_forward, offset_of_next_frame, read_frame, read_one_frame,
}

-- The index has an entry per frame, as `__init__` checks.
abbrev pub IsIndexed : Reader → Type 0
IsIndexed r = length r.frame_indices ≡ r.frame_count

skip_forward-missing :
    (n : ℕ) (xs : List ℕ) → entry n xs ≡ some 0 → skip_forward n xs ≡ skip_forward (suc n) xs
unfolding skip_forward
skip_forward-missing n [] e = absurd (cc)
skip_forward-missing zero (zero ∷ xs) e = refl
skip_forward-missing zero (suc x ∷ xs) e = absurd (ground arith)
skip_forward-missing (suc n) (x ∷ xs) e = skip_forward-missing n xs e

skip_forward-end : (n : ℕ) (xs : List ℕ) → length xs ≤ n → skip_forward n xs ≡ nothing
unfolding skip_forward
skip_forward-end n [] le = refl
skip_forward-end zero (x ∷ xs) le = absurd (omega arith)
skip_forward-end (suc n) (x ∷ xs) le = skip_forward-end n xs (omega arith)

module _ (r : Reader) (n : ℕ) (indexed : IsIndexed r) (below : suc n < r.frame_count) where
  next_of : Skip → ℕ
  next_of s = elim s [ offset o ↦ o | _ ↦ r.index_offset ]

  offset_of_next_frame-missing :
      entry (suc n) r.frame_indices ≡ some 0
      → offset_of_next_frame r (suc n) ≡ offset_of_next_frame r n
  unfolding offset_of_next_frame
  offset_of_next_frame-missing missing = elim (Bool-cases (ltb (suc (suc n)) r.frame_count)) [
    | inl more ↦ rw (more, inside, skip_forward-missing (suc n) r.frame_indices missing) refl
    | inr last ↦
        let end = skip_forward-end (suc (suc n)) r.frame_indices (ground arith) in
        rw (last, inside, skip_forward-missing (suc n) r.frame_indices missing, end) refl
  ]
    where
      inside : ltb (suc n) r.frame_count ≡ true
      inside = ground arith

  read_frame-missing :
      entry (suc n) r.frame_indices ≡ some 0 → read_frame r (suc n) ≡ read_frame r n
  unfolding read_frame skip_back
  read_frame-missing missing = rw (missing, offset_of_next_frame-missing missing) refl

read_one_frame-lax :
    (r : Reader) (n : ℕ)
    → r.raise_error_on_missing_frame ≡ false
    → n < r.frame_count
    → read_one_frame r (pos n) ≡ read_frame r n
unfolding read_one_frame
read_one_frame-lax r n lax below =
    let inside : leb r.frame_count n ≡ false = ground arith in
    rw inside (
      ap
        (λ b.
          if b && is_missing (entry n r.frame_indices) then fails missing_frame else read_frame r n)
        lax)

-- Where the reader is not strict, a missing frame reads the same bytes as the frame before it, so
-- in the end those of the last frame before it that is there.
pub read_one_frame-missing :
    (r : Reader) (n : ℕ)
    → IsIndexed r
    → r.raise_error_on_missing_frame ≡ false
    → suc n < r.frame_count
    → entry (suc n) r.frame_indices ≡ some 0
    → read_one_frame r (pos (suc n)) ≡ read_one_frame r (pos n)
read_one_frame-missing r n indexed lax below missing =
    read_one_frame-lax r (suc n) lax below
    ∙ read_frame-missing r n indexed below missing
    ∙ sym (read_one_frame-lax r n lax (omega arith))

-- The offsets of the frames that are there grow, and stay below the index.
abbrev pub Grows : ℕ → ℕ → List ℕ → Type 0
Grows low high [] = low < high
Grows low high (zero ∷ xs) = Grows low high xs
Grows low high (suc o ∷ xs) = (low < suc o) × Grows (suc o) high xs

skip_forward-Grows :
    (low high n : ℕ) (xs : List ℕ)
    → Grows low high xs
    → (low < high)
      × ((skip_forward n xs ≡ nothing)
          ⊎ ((o : ℕ) × (skip_forward n xs ≡ offset o) × (low < o) × (o < high)))
unfolding skip_forward
skip_forward-Grows low high n [] g = (g, inl refl)
skip_forward-Grows low high zero (zero ∷ xs) g = skip_forward-Grows low high zero xs g
skip_forward-Grows low high zero (suc o ∷ xs) g =
    let (more, _) = skip_forward-Grows (suc o) high zero xs g.1 in
    (omega arith, inr (suc o, refl, g.0, more))
skip_forward-Grows low high (suc n) (zero ∷ xs) g = skip_forward-Grows low high n xs g
skip_forward-Grows low high (suc n) (suc o ∷ xs) g =
    let (below, rest) = skip_forward-Grows (suc o) high n xs g.1 in
    (
      omega arith,
      elim rest [
        | inl none_left ↦ inl none_left
        | inr (p, e, above, under) ↦ inr (p, e, omega arith, under)
      ],
    )

-- What follows a frame that is there.
follows :
    (low high n o : ℕ) (xs : List ℕ)
    → Grows low high xs
    → entry n xs ≡ some (suc o)
    → (suc o < high)
      × ((skip_forward (suc n) xs ≡ nothing)
          ⊎ ((p : ℕ) × (skip_forward (suc n) xs ≡ offset p) × (suc o < p) × (p < high)))
unfolding skip_forward
follows low high n o [] g e = absurd (cc)
follows low high zero o (zero ∷ xs) g e = absurd (ground arith)
follows low high zero o (suc x ∷ xs) g e =
    subst
      (λ i.
        (i < high)
        × ((skip_forward zero xs ≡ nothing)
            ⊎ ((p : ℕ) × (skip_forward zero xs ≡ offset p) × (i < p) × (p < high))))
      (some-injective (suc x) (suc o) e) (skip_forward-Grows (suc x) high zero xs g.1)
follows low high (suc n) o (zero ∷ xs) g e = follows low high n o xs g e
follows low high (suc n) o (suc x ∷ xs) g e = follows (suc x) high n o xs g.1 e

-- A read that begins at `o`, asks for at least a byte, and ends below the index.
abbrev pub InData : ℕ → ℕ → Outcome (ℕ × ℤ) → Type 0
InData o high outcome = (size : ℕ) × (outcome ≡ fine (o, pos size)) × (0 < size) × (o + size ≤ high)

region-InData : (o p high : ℕ) → o < p → p ≤ high → InData o high (region (offset o) p)
region-InData o p high above under =
    let ordered : leb o p ≡ true = ground arith in
    (p - o, rw ordered refl, omega arith, omega arith)

skip_back-entry :
    (n o : ℕ) (xs : List ℕ) → entry n xs ≡ some (suc o) → skip_back n xs ≡ offset (suc o)
unfolding skip_back
skip_back-entry zero o xs e = rw e refl
skip_back-entry (suc n) o xs e = rw e refl

next_above :
    (r : Reader) (n o : ℕ)
    → o < r.index_offset
    → (skip_forward (suc n) r.frame_indices ≡ nothing)
      ⊎ ((p : ℕ) × (skip_forward (suc n) r.frame_indices ≡ offset p)
          × (o < p)
          × (p < r.index_offset))
    → (o < offset_of_next_frame r n) × (offset_of_next_frame r n ≤ r.index_offset)
unfolding offset_of_next_frame
next_above r n o below rest = elim (Bool-cases (ltb (suc n) r.frame_count)) [
  | inr last ↦ rw last (below, omega arith)
  | inl more ↦ elim rest [
    | inl none_left ↦ rw (more, none_left) (below, omega arith)
    | inr (p, e, above, under) ↦ rw (more, e) (above, omega arith)
  ]
]

-- In a file whose frames are stored one after the other, below the index, the read of a frame that
-- is there begins at its offset, is not empty and ends at the latest where the index begins.
pub read_frame-InData :
    (r : Reader) (n o : ℕ)
    → Grows 0 r.index_offset r.frame_indices
    → entry n r.frame_indices ≡ some (suc o)
    → InData (suc o) r.index_offset (read_frame r n)
unfolding read_frame
read_frame-InData r n o grows there =
    let (below, rest) = follows 0 r.index_offset n o r.frame_indices grows there in
    let (above, under) = next_above r n (suc o) below rest in
    subst (λ s. InData (suc o) r.index_offset (region s (offset_of_next_frame r n)))
      (sym (skip_back-entry n o r.frame_indices there))
      (region-InData (suc o) (offset_of_next_frame r n) r.index_offset above under)
