-- ===== src/CopyFiles/Copied.antt =====
-- The copies of the files, one by one.
use ava_capture.Base.{
  ⊤, ℕ, ◌==◌, ◌≡◌, refl, sym, subst, ◌∙◌, String, str_eq, if◌then◌else◌, Bool, true, false, ◌⊎◌,
  Option, none, some, List, [], ◌∷◌, In, arith, inl, inr,
}
use ava_capture.Base.Effects.{Result, ok, err, pure, raise, for_each, bare_exception}
use ava_capture.Base.Effects.Rules.{
  Ends, Contract, outcome_bind, outcome_pure, outcome_conseq, outcome_weaken, outcome_gets,
}
use ava_capture.CopyFiles.{
  Disk, Os, FileList, has_file, path_exists, make_folder, size_of, copy_present, skips, copy_one,
}
use ava_capture.CopyFiles.Loop.{Elsewhere, safe_copy_file-Contract}
use ava_capture.CopyFiles.Apart.{Apart, Untouched, Copied, SoFar, source_kept, copied_more}

-- A check keeps what it finds.
check-Contract :
    {P : Disk → Type 0} (test : Disk → Bool)
    → Contract P (λ w. (if test w then pure tt else raise bare_exception) w) (λ _. P) P
check-Contract {P} test = record { at = λ w h. by_test (test w) w h }
  where
    by_test :
        (b : Bool) (w : Disk)
        → P w
        → Ends {A = ⊤} (λ _. P) P ((if b then pure tt else raise bare_exception) w)
    by_test true w h = h
    by_test false w h = h

module _ (os : Os) (fuel : ℕ) where
  copy_present-Contract :
      (src dest : String) (w : Disk)
      → str_eq src dest ≡ false
      → Contract
          (Elsewhere dest w)
          (copy_present os fuel src dest)
          (λ _ v. Elsewhere dest w v × (v.files dest ≡ w.files src))
          (Elsewhere dest w)
  unfolding copy_present
  copy_present-Contract src dest w apart =
      outcome_bind (check-Contract (λ v. path_exists v src)) (λ _.
        outcome_bind (outcome_gets (λ (v : Disk). size_of (v.files src))) (λ (size : ℕ).
          outcome_bind (safe_copy_file-Contract os dest w fuel src apart) (λ _.
            outcome_bind (outcome_weaken (λ v h. h.0) (check-Contract (λ v. path_exists v dest)))
              (λ _.
                outcome_weaken (λ v h. h.0)
                  (check-Contract (λ v. size_of (v.files dest) == size))))))

  module _ (files : FileList) (apart : Apart os files) (w0 : Disk) where
    make_folder-Contract :
        (S : String × String → Type 0) (dest : String)
        → Contract
            (SoFar os files w0 S)
            (make_folder os dest)
            (λ _. SoFar os files w0 S)
            (Untouched os files w0)
    unfolding make_folder
    make_folder-Contract S dest = record { at = λ w h. h }

    copy_one-Contract :
        (S : String × String → Type 0) (e : String × String)
        → In e files
        → Contract
            (SoFar os files w0 S)
            (copy_one os fuel e)
            (λ _. SoFar os files w0 (λ i. (i ≡ e) ⊎ S i))
            (Untouched os files w0)
    unfolding copy_one
    copy_one-Contract S (src, dest) m = outcome_bind (make_folder-Contract S dest) (λ _.
        outcome_bind (outcome_weaken (λ w h. h.0) (check-Contract (λ w. path_exists w dest)))
          (λ _. record { at = λ w h. by_skip w h (skips w src place) refl }))
      where
        place : String
        place = os.join_name dest src

        gone : (w : Disk) → skips w src place ≡ true → w.files src ≡ none
        gone w e = by_file (w.files src) (ground arith)
          where
            by_file : (o : Option (List ℕ)) → has_file o ≡ false → o ≡ none
            by_file none h = refl
            by_file (some c) h = cc

        missing :
            (w : Disk)
            → Untouched os files w0 w
            → skips w src place ≡ true
            → (c : List ℕ) → w0.files src ≡ some c
            → ⊥
        missing w kept e c there =
            let here = source_kept os files apart w0 w (src, dest) kept m in
            let absent = gone w e in cc

        finish :
            (w : Disk)
            → SoFar os files w0 S w
            → (p : Result ⊤ × Disk)
            → Ends
                (λ _ v. Elsewhere place w v × (v.files place ≡ w.files src))
                (Elsewhere place w)
                p
            → Ends (λ _. SoFar os files w0 (λ i. (i ≡ (src, dest)) ⊎ S i)) (Untouched os files w0) p
        finish w h (ok t, v) (elsewhere, now) =
            copied_more os files apart w0 S (src, dest) w v m h elsewhere now
        finish w h (err e, v) elsewhere = λ f free. elsewhere f (free (src, dest) m) ∙ h.0 f free

        by_skip :
            (w : Disk)
            → SoFar os files w0 S w
            → (b : Bool) → skips w src place ≡ b
            → Ends
                (λ _. SoFar os files w0 (λ i. (i ≡ (src, dest)) ⊎ S i))
                (Untouched os files w0)
                ((if b then pure tt else copy_present os fuel src place) w)
        by_skip w (kept, done) true e = (
          kept,
          λ i which. elim which [
            | inl same ↦ (
              subst (λ x. In x files) (sym same) m,
              subst (λ x. Copied os w0 x w) (sym same)
                  (λ c there. absurd (missing w kept e c there)),
            )
            | inr before ↦ done i before
          ],
        )
        by_skip w h false e = finish w h ((copy_present os fuel src place) w) (
            (copy_present-Contract src place w (apart.source (src, dest) (src, dest) m m)).at w
              (λ g _. refl))

    pub copy_each-Contract :
        (S : String × String → Type 0) (es : FileList)
        → ((e : String × String) → In e es → In e files)
        → Contract
            (SoFar os files w0 S)
            (for_each (copy_one os fuel) es)
            (λ _. SoFar os files w0 (λ i. In i es ⊎ S i))
            (Untouched os files w0)
    unfolding for_each
    copy_each-Contract S [] inside = outcome_pure tt (λ w h. (
      h.0,
      λ i which. elim which [ inl none_left ↦ absurd none_left | inr before ↦ h.1 i before ],
    ))
    copy_each-Contract S (e ∷ es) inside =
        outcome_bind (copy_one-Contract S e (inside e (inl refl))) (λ _.
          outcome_conseq (λ w h. h)
            (λ _ w h. (
              h.0,
              λ i which. elim which [
                | inl (inl same) ↦ h.1 i (inr (inl same))
                | inl (inr later) ↦ h.1 i (inl later)
                | inr before ↦ h.1 i (inr (inr before))
              ],
            ))
            (copy_each-Contract (λ i. (i ≡ e) ⊎ S i) es (λ i n. inside i (inr n))))
