-- ===== src/Archive/Files/RoundTrip.antt =====
-- The files of a camera, joined by `register_new_take` and split by the archive views.
use Prim.Native.Char.{code}
use Prim.Native.String.{◌++◌ as ◌<>◌}
use text.Mathlib.TextLemmas.{cons-append, nil-append}
use ava_capture.Base.{⊤, ◌==◌, ◌≡◌, refl, ap, ◌∙◌, String, false, List, [], ◌∷◌, All}
use ava_capture.Capture.Takes.Reports.{join}
use ava_capture.Archive.Files.{split}

-- No character of the text is a semicolon.
abbrev pub IsPlain : String → Type 0
IsPlain String.[] = ⊤
IsPlain (String.◌∷◌ c s) = ((code c == b';') ≡ false) × IsPlain s

split_plain : (s : String) → IsPlain s → split s ≡ s ∷ []
unfolding split
split_plain String.[] h = refl
split_plain (String.◌∷◌ c s) (other, rest) = rw (other, split_plain s rest) refl

split_separated : (s t : String) → IsPlain s → split (s <> ";" <> t) ≡ s ∷ split t
unfolding split
split_separated String.[] t h = ap split (
    nil-append (";" <> t) ∙ cons-append ";" String.[] t ∙ ap (λ u. String.◌∷◌ ";" u) (nil-append t))
split_separated (String.◌∷◌ c s) t (other, rest) =
    ap split (cons-append c s (";" <> t)) ∙ rw (other, split_separated s t rest) refl

-- A list of files, of which none has a semicolon in its name, is what its joined text is split to.
pub split-join :
    (file : String) (files : List String)
    → All IsPlain (file ∷ files)
    → split (join (file ∷ files)) ≡ file ∷ files
unfolding join
split-join file [] (h, _) = split_plain file h
split-join file (next ∷ files) (h, rest) =
    split_separated file (join (next ∷ files)) h ∙ ap (λ xs. file ∷ xs) (split-join next files rest)
