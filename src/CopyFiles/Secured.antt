-- ===== src/CopyFiles/Secured.antt =====
-- What the job leaves of the sources and of the copies.
use text.Mathlib.TextEquality.{eq_iff}
use ava_capture.Base.{
  ⊤, ℕ, ◌≡◌, refl, sym, subst, String, str_eq, Bool, true, false, ◌&&◌, ◌⊎◌, some, [], ◌∷◌, In,
  Bool-cases, inl, inr,
}
use ava_capture.Base.Effects.{for_each, when}
use ava_capture.Base.Effects.Rules.{Ends, Contract, outcome_bind, outcome_pure, outcome_conseq}
use ava_capture.CopyFiles.{
  Disk, Os, FileList, has_file, path_exists, remove, delete_source, copy_files,
}
use ava_capture.CopyFiles.Loop.{str_eq_refl}
use ava_capture.CopyFiles.Apart.{Apart, Untouched, Secured, SoFar, copy_of}
use ava_capture.CopyFiles.Copied.{copy_each-Contract}

module _ (os : Os) (files : FileList) (apart : Apart os files) (w0 : Disk) where
  -- The deletion of a source touches no copy.
  delete_source-Contract :
      (e : String × String)
      → In e files
      → Contract
          (Secured os files w0)
          (delete_source os e)
          (λ _. Secured os files w0)
          (Untouched os files w0)
  unfolding delete_source remove
  delete_source-Contract (src, dest) m = record {
    at = λ w h. elim (Bool-cases (path_exists w src)) [
      | inr absent ↦ rw absent h
      | inl there ↦ elim (Bool-cases (has_file (w.files src) && os.removes src)) [
        | inr stays ↦ rw (there, stays) h
        | inl goes ↦
            rw (there, goes)
              (record {
                copies = λ i n c held. rw (swapped i n) (h.copies i n c held);
                others = λ f free. rw (free (src, dest) m).0 (h.others f free);
              })
      ]
    ];
  }
    where
      swapped : (i : String × String) → In i files → str_eq (copy_of os i) src ≡ false
      swapped i n = elim (Bool-cases (str_eq (copy_of os i) src)) [
        | inr other ↦ other
        | inl hit ↦
            let same : copy_of os i ≡ src = (eq_iff (copy_of os i) src).0 hit in
            let apart_from = apart.source (src, dest) i m n in
            let equal : str_eq src (copy_of os i) ≡ true =
              subst (λ x. str_eq src x ≡ true) (sym same) (str_eq_refl src) in
            absurd (cc)
      ]

  delete_each-Contract :
      (es : FileList)
      → ((e : String × String) → In e es → In e files)
      → Contract
          (Secured os files w0)
          (for_each (delete_source os) es)
          (λ _. Secured os files w0)
          (Untouched os files w0)
  unfolding for_each
  delete_each-Contract [] inside = outcome_pure tt (λ w h. h)
  delete_each-Contract (e ∷ es) inside =
      outcome_bind (delete_source-Contract e (inside e (inl refl)))
        (λ _. delete_each-Contract es (λ i n. inside i (inr n)))

-- Where no file is copied onto a source and no two sources have the same copy, whatever the
-- operating system allows: a job that returns has put the bytes of each source that was there into
-- its copy, also where it then deletes the sources, and the files that are neither a source nor a
-- copy are as they were. A job that raises, or is still at work, has deleted and changed nothing
-- but copies.
pub copy_files-Secured :
    (os : Os) (fuel : ℕ) (files : FileList) (delete_src_files : Bool) (w : Disk)
    → Apart os files
    → Ends
        (λ _. Secured os files w)
        (Untouched os files w)
        (copy_files os fuel (some files) delete_src_files w)
unfolding copy_files
copy_files-Secured os fuel files delete_src_files w apart =
    (outcome_bind
        (outcome_conseq (λ v h. h) secured
          (copy_each-Contract os fuel files apart w (λ _. ⊥) files (λ e m. m)))
        (λ _. deleted delete_src_files)).at
      w (λ f _. refl, λ i none_yet. absurd none_yet)
  where
    secured : (t : ⊤) (v : Disk) → SoFar os files w (λ i. In i files ⊎ ⊥) v → Secured os files w v
    secured t v (kept, done) = record {
      copies = λ e m. (done e (inl m)).1;
      others = λ f free. kept f (λ e m. (free e m).1);
    }

    deleted :
        (b : Bool)
        → Contract
            (Secured os files w)
            (when b (for_each (delete_source os) files))
            (λ _. Secured os files w)
            (Untouched os files w)
    deleted true = delete_each-Contract os files apart w files (λ e m. m)
    deleted false = outcome_pure tt (λ v h. h)
