-- ===== src/Names/Numerals.antt =====
-- A padded decimal numeral is read back as its number.
use Prim.Native.Char.{Char, code}
use Prim.Native.String.{◌++◌ as ◌<>◌, count}
use text.Mathlib.TextLemmas.{cons-append, nil-append}
use ava_capture.Base.{
  ℕ, zero, suc, ◌+◌, ◌-◌, ◌*◌, ◌/◌, ◌%◌, ◌<◌, ◌≡◌, refl, ◌∙◌, ap, String, ltb, Bool-cases, inl, inr,
  arith,
}
use ava_capture.Base.Decimal.{decimal, decimal_from, digit}
use ava_capture.Names.{value_from, zeros, padded}

-- A digit is one character, with its value.
digit-char : (n : ℕ) → n < 10 → (d : Char) × (digit n ≡ String.◌∷◌ d String.[]) × (code d - 48 ≡ n)
unfolding digit
digit-char zero h = (_, refl, refl)
digit-char (suc zero) h = (_, refl, refl)
digit-char (suc (suc zero)) h = (_, refl, refl)
digit-char (suc (suc (suc zero))) h = (_, refl, refl)
digit-char (suc (suc (suc (suc zero)))) h = (_, refl, refl)
digit-char (suc (suc (suc (suc (suc zero))))) h = (_, refl, refl)
digit-char (suc (suc (suc (suc (suc (suc zero)))))) h = (_, refl, refl)
digit-char (suc (suc (suc (suc (suc (suc (suc zero))))))) h = (_, refl, refl)
digit-char (suc (suc (suc (suc (suc (suc (suc (suc zero)))))))) h = (_, refl, refl)
digit-char (suc (suc (suc (suc (suc (suc (suc (suc (suc zero))))))))) h = (_, refl, refl)
digit-char (suc (suc (suc (suc (suc (suc (suc (suc (suc (suc n)))))))))) h = absurd (omega arith)

value_from-digit :
    (a n : ℕ) (s : String) → n < 10 → value_from a (digit n <> s) ≡ value_from (a * 10 + n) s
unfolding value_from
value_from-digit a n s h =
    let (d, e, v) = digit-char n h in
    ap (λ t. value_from a (t <> s)) e
    ∙ ap (value_from a) (cons-append d String.[] s ∙ ap (String.◌∷◌ d) (nil-append s))
    ∙ ap (λ k. value_from (a * 10 + k) s) v

value_from-decimal_from :
    (f n : ℕ) (s : String) → n < f → value_from 0 (decimal_from f n s) ≡ value_from n s
unfolding decimal_from
value_from-decimal_from zero n s h = absurd (omega arith)
value_from-decimal_from (suc f) n s h = elim (Bool-cases (ltb n 10)) [
  | inl small ↦
      rw small (value_from-digit 0 n s (ground arith) ∙ ap (λ k. value_from k s) (omega arith))
  | inr large ↦ rw large (
      value_from-decimal_from f (n / 10) (digit (n % 10) <> s) (ground arith)
      ∙ value_from-digit (n / 10) (n % 10) s (omega arith)
      ∙ ap (λ k. value_from k s) (omega arith))
]

value_from-zeros : (k : ℕ) (s : String) → value_from 0 (zeros k <> s) ≡ value_from 0 s
unfolding zeros value_from
value_from-zeros zero s = ap (value_from 0) (nil-append s)
value_from-zeros (suc k) s =
    ap (λ t. value_from 0 (t <> s))
      (cons-append "0" String.[] (zeros k) ∙ ap (String.◌∷◌ "0") (nil-append (zeros k)))
    ∙ ap (value_from 0) (cons-append "0" (zeros k) s)
    ∙ value_from-zeros k s

-- The number that a padded numeral shows.
pub value_from-padded : (width n : ℕ) → value_from 0 (padded width n) ≡ n
unfolding padded decimal value_from
value_from-padded width n =
    value_from-zeros (width - count (decimal n)) (decimal n)
    ∙ value_from-decimal_from (suc n) n "" (omega arith)
