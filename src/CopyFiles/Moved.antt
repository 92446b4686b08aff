-- ===== src/CopyFiles/Moved.antt =====
-- A copy whose sources are deleted.
use ava_capture.Base.{
  ⊤, ℕ, ◌≡◌, refl, ap, ◌∙◌, String, str_eq, true, false, ◌⊎◌, Option, none, some, List, [], ◌∷◌, In,
  Bool-cases, inl, inr,
}
use ava_capture.Base.Effects.{Result, ok, err, for_each}
use ava_capture.Base.Effects.Rules.{Ends, Contract, outcome_bind, outcome_pure, outcome_conseq}
use ava_capture.CopyFiles.{Disk, Os, FileList, has_file, put, remove, delete_source, copy_files}
use ava_capture.CopyFiles.Loop.{str_eq_refl}
use ava_capture.CopyFiles.Apart.{Apart, Untouched, Secured}
use ava_capture.CopyFiles.Ending.{Willing}
use ava_capture.CopyFiles.Returns.{Ready, Going, copy_each_returns, Going-at_first}
use ava_capture.CopyFiles.Secured.{copy_files-Secured}

module _ (os : Os) (willing : Willing os) where
  -- The sources of `S` are gone.
  abbrev AreGone : (String × String → Type 0) → Disk → Type 0
  AreGone S w = (e : String × String) → S e → w.files e.0 ≡ none

  no_file : (o : Option (List ℕ)) → has_file o ≡ false → o ≡ none
  no_file none h = refl
  no_file (some c) h = cc

  gone_with :
      (S : String × String → Type 0) (e : String × String) (w : Disk)
      → w.files e.0 ≡ none
      → AreGone S w
      → AreGone (λ i. (i ≡ e) ⊎ S i) w
  gone_with S e w now before i which = elim which [
    | inl same ↦ ap (λ (x : String × String). w.files x.0) same ∙ now
    | inr old ↦ before i old
  ]

  still_gone :
      (S : String × String → Type 0) (f : String) (w : Disk)
      → AreGone S w
      → AreGone S (put f none w)
  still_gone S f w before i old = elim (Bool-cases (str_eq i.0 f)) [
    | inl hit ↦ rw hit refl
    | inr other ↦ rw other (before i old)
  ]

  delete_source_returns :
      (S : String × String → Type 0) (e : String × String)
      → Contract (AreGone S) (delete_source os e) (λ _. AreGone (λ i. (i ≡ e) ⊎ S i)) (λ _. ⊥)
  unfolding delete_source remove
  delete_source_returns S (src, dest) = record {
    at = λ w h. elim (Bool-cases (has_file (w.files src))) [
      | inl there ↦
          rw (there, there, willing.removes src)
            (gone_with S (src, dest) (put src none w) (rw (str_eq_refl src) refl)
              (still_gone S src w h))
      | inr absent ↦
          let now = gone_with S (src, dest) w (no_file (w.files src) absent) h in
          elim (Bool-cases (w.folders src)) [
            | inl folder ↦ rw (absent, folder, absent) now
            | inr nothing ↦ rw (absent, nothing) now
          ]
    ];
  }

  delete_each_returns :
      (S : String × String → Type 0) (es : FileList)
      → Contract
          (AreGone S)
          (for_each (delete_source os) es)
          (λ _. AreGone (λ i. In i es ⊎ S i))
          (λ _. ⊥)
  unfolding for_each
  delete_each_returns S [] =
      outcome_pure tt
        (λ w h i which. elim which [ inl none_left ↦ absurd none_left | inr before ↦ h i before ])
  delete_each_returns S (e ∷ es) = outcome_bind (delete_source_returns S e) (λ _.
      outcome_conseq (λ w h. h)
        (λ _ w h i which. elim which [
          | inl (inl same) ↦ h i (inr (inl same))
          | inl (inr later) ↦ h i (inl later)
          | inr before ↦ h i (inr (inr before))
        ])
        (delete_each_returns (λ i. (i ≡ e) ⊎ S i) es))

-- Where every source is there, no place of a copy is a folder, and the operating system refuses
-- nothing, in Python 2 and on a clock that goes on, a job that is to delete its sources returns,
-- with enough fuel: each copy has the bytes of its source, no source is left, and the other files
-- are as they were.
pub copy_files_returns :
    (os : Os) (fuel : ℕ) (files : FileList) (w : Disk)
    → Willing os
    → Apart os files
    → Ready os fuel files w
    → (w' : Disk) × (copy_files os fuel (some files) true w ≡ (ok tt, w'))
      × Secured os files w w'
      × ((e : String × String) → In e files → w'.files e.0 ≡ none)
unfolding copy_files
copy_files_returns os fuel files w willing apart start =
    returned (copy_files os fuel (some files) true w)
      (copy_files-Secured os fuel files true w apart)
      (all.at w (Going-at_first os willing fuel files apart w start))
  where
    all :
        Contract
          (Going os willing fuel files apart w start)
          (copy_files os fuel (some files) true)
          (λ _ v. (e : String × String) → In e files → v.files e.0 ≡ none)
          (λ _. ⊥)
    all =
        outcome_bind (copy_each_returns os willing fuel files apart w start files (λ e m. m)) (λ _.
          outcome_conseq (λ v h i none_yet. absurd none_yet) (λ _ v h e m. h e (inl m))
            (delete_each_returns os willing (λ _. ⊥) files))

    returned :
        (p : Result ⊤ × Disk)
        → Ends (λ _. Secured os files w) (Untouched os files w) p
        → Ends (λ _ v. (e : String × String) → In e files → v.files e.0 ≡ none) (λ _. ⊥) p
        → (w' : Disk) × (p ≡ (ok tt, w'))
          × Secured os files w w'
          × ((e : String × String) → In e files → w'.files e.0 ≡ none)
    returned (ok t, v) secured gone = (v, refl, secured, gone)
    returned (err e, v) secured gone = absurd gone
