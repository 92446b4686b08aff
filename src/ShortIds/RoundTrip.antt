-- ===== src/ShortIds/RoundTrip.antt =====
-- A short id is read back as the number that it encodes.
use ava_capture.Base.{
  ℕ, zero, suc, ◌+◌, ◌-◌, ◌*◌, ◌/◌, ◌%◌, ◌<◌, ◌≤◌, ◌≡◌, refl, ◌∙◌, ap, ltb, leb, ◌==◌,
  if◌then◌else◌, true, false, Bool-cases, inl, inr, List, [], ◌∷◌, arith,
}
use ava_capture.Base.Int.{ℤ, pos, negsuc}
use ava_capture.Base.Effects.{ok}
use ava_capture.ShortIds.{alphabet_at, digits36, magnitude36, base36encode}

-- The value of a character of the alphabet.
abbrev pub digit_value : ℕ → ℕ
digit_value c = if leb c b'9' then c - b'0' else c - b'A' + 10

abbrev pub read36 : ℕ → List ℕ → ℕ
read36 n [] = n
read36 n (c ∷ s) = read36 (n * 36 + digit_value c) s

-- A number from its text: a minus sign, and digits to base 36.
abbrev pub decode36 : List ℕ → ℤ
decode36 [] = pos 0
decode36 (c ∷ s) = if c == b'-' then negsuc (read36 0 s - 1) else pos (read36 0 (c ∷ s))

digit_value-alphabet_at : (i : ℕ) → i < 36 → digit_value (alphabet_at i) ≡ i
digit_value-alphabet_at i h = ground arith

alphabet_at-no_sign : (i : ℕ) → i < 36 → (alphabet_at i == b'-') ≡ false
alphabet_at-no_sign i h = ground arith

read36-digits36 :
    (fuel number : ℕ) (s : List ℕ)
    → number ≤ fuel
    → read36 0 (digits36 fuel number s) ≡ read36 number s
unfolding digits36
read36-digits36 zero number s h = ap (λ n. read36 n s) (omega arith)
read36-digits36 (suc fuel) number s h = elim (Bool-cases (number == 0)) [
  | inl none_left ↦ rw none_left (ap (λ n. read36 n s) (ground arith))
  | inr more ↦ rw more (
      read36-digits36 fuel (number / 36) (alphabet_at (number % 36) ∷ s) (ground arith)
      ∙ ap (λ d. read36 (number / 36 * 36 + d) s)
          (digit_value-alphabet_at (number % 36) (omega arith))
      ∙ ap (λ n. read36 n s) (omega arith))
]

-- The text does not begin with a minus sign.
abbrev NoSign : List ℕ → Type 0
NoSign [] = Unit
NoSign (c ∷ s) = (c == b'-') ≡ false

digits36-NoSign : (fuel number : ℕ) (s : List ℕ) → NoSign s → NoSign (digits36 fuel number s)
unfolding digits36
digits36-NoSign zero number s h = h
digits36-NoSign (suc fuel) number s h = elim (Bool-cases (number == 0)) [
  | inl none_left ↦ rw none_left h
  | inr more ↦ rw more (
      digits36-NoSign fuel (number / 36) (alphabet_at (number % 36) ∷ s)
        (alphabet_at-no_sign (number % 36) (omega arith)))
]

read36-magnitude36 : (n : ℕ) → read36 0 (magnitude36 n) ≡ n
unfolding magnitude36
read36-magnitude36 n = elim (Bool-cases (ltb n 36)) [
  | inl small ↦ rw small (ground (arith, digit_value-alphabet_at n))
  | inr large ↦ rw large (read36-digits36 n n [] (omega arith))
]

magnitude36-NoSign : (n : ℕ) → NoSign (magnitude36 n)
unfolding magnitude36
magnitude36-NoSign n = elim (Bool-cases (ltb n 36)) [
  | inl small ↦ rw small (alphabet_at-no_sign n (ground arith))
  | inr large ↦ rw large (digits36-NoSign n n [] tt)
]

decode36-NoSign : (s : List ℕ) → NoSign s → decode36 s ≡ pos (read36 0 s)
decode36-NoSign [] h = refl
decode36-NoSign (c ∷ s) h = rw h refl

-- Where the interpreter has `long`, every integer has a text to base 36, and the text is read back
-- as the integer.
pub base36encode-decode36 :
    (number : ℤ) → (s : List ℕ) × (base36encode true number ≡ ok s) × (decode36 s ≡ number)
unfolding base36encode
base36encode-decode36 (pos n) = (
  magnitude36 n,
  refl,
  decode36-NoSign (magnitude36 n) (magnitude36-NoSign n) ∙ ap pos (read36-magnitude36 n),
)
base36encode-decode36 (negsuc n) = (
  b'-' ∷ magnitude36 (suc n),
  refl,
  ap (λ m. negsuc (m - 1)) (read36-magnitude36 (suc n)) ∙ ap negsuc (omega arith),
)
