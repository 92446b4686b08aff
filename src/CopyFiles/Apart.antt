-- ===== src/CopyFiles/Apart.antt =====
-- What a copy must not do, and what is known while the files are copied one by one.
use text.Mathlib.TextEquality.{eq_iff}
use ava_capture.Base.{
  ℕ, ◌≡◌, sym, ap, subst, ◌∙◌, String, str_eq, false, ◌⊎◌, some, List, In, Bool-cases, inl, inr,
}
use ava_capture.CopyFiles.{Disk, Os, FileList}
use ava_capture.CopyFiles.Loop.{Elsewhere}

-- Where the copy of a file of the list goes.
abbrev pub copy_of : Os → String × String → String
copy_of os e = os.join_name e.1 e.0

-- No file is copied onto a source, and no two sources have the same copy.
pub record Apart (os : Os) (files : FileList) : Type 0 where
  pub source : (e i : String × String) → In e files → In i files → str_eq e.0 (copy_of os i) ≡ false
  pub target :
      (e i : String × String) → In e files → In i files → copy_of os e ≡ copy_of os i → e.0 ≡ i.0

-- Every file but the copies is as it was.
abbrev pub Untouched : Os → FileList → Disk → Disk → Type 0
Untouched os files w0 w =
    (f : String)
    → ((e : String × String) → In e files → str_eq f (copy_of os e) ≡ false)
    → w.files f ≡ w0.files f

-- The copy holds the bytes that the source held, where there was one.
abbrev pub Copied : Os → Disk → String × String → Disk → Type 0
Copied os w0 e w = (c : List ℕ) → w0.files e.0 ≡ some c → w.files (copy_of os e) ≡ some c

-- Every source has its copy, and the files that are neither are as they were.
pub record Secured (os : Os) (files : FileList) (w0 w : Disk) : Type 0 where
  pub copies : (e : String × String) → In e files → Copied os w0 e w
  pub others :
      (f : String)
      → ((e : String × String)
          → In e files
          → (str_eq f e.0 ≡ false) × (str_eq f (copy_of os e) ≡ false))
      → w.files f ≡ w0.files f

-- So far only copies have been written, and those of `S` are complete.
abbrev pub SoFar : Os → FileList → Disk → (String × String → Type 0) → Disk → Type 0
SoFar os files w0 S w =
    Untouched os files w0 w × ((e : String × String) → S e → In e files × Copied os w0 e w)

module _ (os : Os) (files : FileList) (apart : Apart os files) (w0 : Disk) where
  -- A source is as it was.
  pub source_kept :
      (w : Disk) (e : String × String)
      → Untouched os files w0 w
      → In e files
      → w.files e.0 ≡ w0.files e.0
  source_kept w e kept m = kept e.0 (λ i n. apart.source e i m n)

  -- The copy of one more file.
  pub copied_more :
      (S : String × String → Type 0) (e : String × String) (w v : Disk)
      → In e files
      → SoFar os files w0 S w
      → Elsewhere (copy_of os e) w v
      → v.files (copy_of os e) ≡ w.files e.0
      → SoFar os files w0 (λ i. (i ≡ e) ⊎ S i) v
  copied_more S e w v m (kept, done) elsewhere now = (
    λ f free. elsewhere f (free e m) ∙ kept f free,
    λ i which. elim which [
      | inl same ↦ (
        subst (λ x. In x files) (sym same) m,
        subst (λ x. Copied os w0 x v) (sym same) (λ c there. now ∙ source_kept w e kept m ∙ there),
      )
      | inr before ↦
          let (n, old) = done i before in
          (
            n,
            λ c there. elim (Bool-cases (str_eq (copy_of os i) (copy_of os e))) [
              | inl hit ↦
                  let place : copy_of os i ≡ copy_of os e =
                    (eq_iff (copy_of os i) (copy_of os e)).0 hit in
                  ap v.files place
                  ∙ now
                  ∙ source_kept w e kept m
                  ∙ ap w0.files (sym (apart.target i e n m place))
                  ∙ there
              | inr other ↦ elsewhere (copy_of os i) other ∙ old c there
            ],
          )
    ],
  )
