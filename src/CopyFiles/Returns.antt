-- ===== src/CopyFiles/Returns.antt =====
-- When the job returns.
use ava_capture.Base.{
  ⊤, ℕ, ◌==◌, ◌<◌, ◌≡◌, refl, sym, ap, subst, ◌∙◌, String, str_eq, if◌then◌else◌, Bool, true, false,
  not, ◌&&◌, ◌||◌, some, List, [], ◌∷◌, In, length, arith, inl, inr, ==_refl,
}
use ava_capture.Base.Effects.{Result, ok, err, pure, for_each, bare_exception}
use ava_capture.Base.Effects.Rules.{
  Ends, Contract, outcome_bind, outcome_pure, outcome_conseq, outcome_keeps, outcome_check,
  outcome_given,
}
use ava_capture.CopyFiles.{
  Disk, Os, FileList, has_file, path_exists, make_folder, size_of, copy_present, safe_copy_file,
  skips, copy_one,
}
use ava_capture.CopyFiles.Loop.{Elsewhere, str_eq_refl}
use ava_capture.CopyFiles.Apart.{Apart, Untouched, copy_of, source_kept}
use ava_capture.CopyFiles.Ending.{Willing, safe_copy_file_returns}
use ava_capture.CopyFiles.Folders.{safe_copy_file-SameFolders}

-- Every source is there, with less bytes than the fuel, and no place of a copy is a folder.
pub record Ready (os : Os) (fuel : ℕ) (files : FileList) (w : Disk) : Type 0 where
  pub source :
      (e : String × String) → In e files → (c : List ℕ) × (w.files e.0 ≡ some c) × (length c < fuel)
  pub place : (e : String × String) → In e files → w.folders (copy_of os e) ≡ false
  pub folder : (e i : String × String) → In e files → In i files → str_eq (copy_of os e) i.1 ≡ false

module _ (os : Os) (willing : Willing os) (fuel : ℕ) (files : FileList) (apart : Apart os files)
    (w0 : Disk) (start : Ready os fuel files w0) where
  -- Only copies have been written, and no place of a copy is a folder.
  abbrev pub Going : Disk → Type 0
  Going w =
      Untouched os files w0 w
      × ((e : String × String) → In e files → w.folders (copy_of os e) ≡ false)

  make_folder_returns :
      (e : String × String)
      → In e files
      → Contract Going (make_folder os e.1) (λ _ w. Going w × (path_exists w e.1 ≡ true)) (λ _. ⊥)
  unfolding make_folder
  make_folder_returns (src, dest) m = record {
    at = λ w (kept, free). ((kept, λ i n. rw (start.folder i (src, dest) n m) (free i n)), made w);
  }
    where
      made :
          (w : Disk)
          → (has_file (w.files dest)
              || ((str_eq dest dest && not (path_exists w dest) && os.makes_folder dest)
                  || w.folders dest))
            ≡ true
      made w = let own = str_eq_refl dest in let allowed = willing.makes_folder dest in ground arith

  -- The copy of one source that is there, from the disk `w`.
  copy_present_returns :
      (e : String × String) (w : Disk) (c : List ℕ)
      → In e files
      → w.files e.0 ≡ some c
      → length c < fuel
      → w.folders (copy_of os e) ≡ false
      → Contract
          (λ v. v ≡ w)
          (copy_present os fuel e.0 (copy_of os e))
          (λ _ v.
            (Elsewhere (copy_of os e) w v × (v.files (copy_of os e) ≡ w.files e.0))
            × (v.folders ≡ w.folders))
          (λ _. ⊥)
  unfolding copy_present
  copy_present_returns e w c m there enough free =
      outcome_bind
        (outcome_check (λ v. path_exists v e.0) bare_exception
          (λ v same. subst (λ x. path_exists x e.0 ≡ true) (sym same) (rw there refl)))
        (λ _. outcome_bind sized (λ (size : ℕ). outcome_bind (copied size) (λ _.
          outcome_bind
            (outcome_check (λ v. path_exists v (copy_of os e)) bare_exception
              (λ v h. rw (h.0.0.1, there) refl))
            (λ _.
              outcome_conseq (λ v h. h) (λ _ v h. h.0)
                (outcome_check (λ v. size_of (v.files (copy_of os e)) == size) bare_exception
                  (λ v h. rw (h.0.0.1, h.1) (==_refl (size_of (w.files e.0)))))))))
    where
      sized :
          Contract
            (λ v. v ≡ w)
            (λ v. pure (size_of (v.files e.0)) v)
            (λ size v. (v ≡ w) × (size ≡ size_of (w.files e.0)))
            (λ _. ⊥)
      sized = record { at = λ v same. (same, ap (λ (x : Disk). size_of (x.files e.0)) same) }

      copied :
          (size : ℕ)
          → Contract
              (λ v. (v ≡ w) × (size ≡ size_of (w.files e.0)))
              (safe_copy_file os fuel e.0 (copy_of os e))
              (λ _ v.
                ((Elsewhere (copy_of os e) w v × (v.files (copy_of os e) ≡ w.files e.0))
                  × (v.folders ≡ w.folders))
                × (size ≡ size_of (w.files e.0)))
              (λ _. ⊥)
      copied size = outcome_given (λ (known : size ≡ size_of (w.files e.0)).
          outcome_conseq (λ v (same : v ≡ w). (same, ap (λ (x : Disk). x.folders) same))
            (λ _ v h. (h, known))
            (outcome_keeps
              (safe_copy_file_returns os willing (copy_of os e) w fuel e.0 c (apart.source e e m m)
                there enough free)
              (safe_copy_file-SameFolders os w.folders fuel e.0 (copy_of os e))))

  went_on :
      (e : String × String) (w v : Disk)
      → In e files
      → Going w
      → (Elsewhere (copy_of os e) w v × (v.files (copy_of os e) ≡ w.files e.0))
        × (v.folders ≡ w.folders)
      → Going v
  went_on e w v m (kept, free) ((elsewhere, _), same) = (
    λ f not_copy. elsewhere f (not_copy e m) ∙ kept f not_copy,
    λ i n. ap (λ (g : String → Bool). g (copy_of os i)) same ∙ free i n,
  )

  finish :
      (e : String × String) (w : Disk) (p : Result ⊤ × Disk)
      → In e files
      → Going w
      → Ends
          (λ _ v.
            (Elsewhere (copy_of os e) w v × (v.files (copy_of os e) ≡ w.files e.0))
            × (v.folders ≡ w.folders))
          (λ _. ⊥)
          p
      → Ends (λ _. Going) (λ _. ⊥) p
  finish e w (ok t, v) m h done = went_on e w v m h done
  finish e w (err x, v) m h done = done

  copy_one_returns :
      (e : String × String) → In e files → Contract Going (copy_one os fuel e) (λ _. Going) (λ _. ⊥)
  unfolding copy_one
  copy_one_returns (src, dest) m = outcome_bind (make_folder_returns (src, dest) m) (λ _.
      outcome_bind (outcome_check (λ w. path_exists w dest) bare_exception (λ w h. h.1))
        (λ _. outcome_conseq (λ w h. h.0) (λ _ w h. h) rest))
    where
      not_skipped :
          (w : Disk) (c : List ℕ)
          → w.files src ≡ some c
          → skips w src (os.join_name dest src) ≡ false
      not_skipped w c here = let present : path_exists w src ≡ true = rw here refl in ground arith

      rest :
          Contract Going
            (λ w.
              (if skips w src (os.join_name dest src)
                  then pure tt
                  else copy_present os fuel src (os.join_name dest src))
                w)
            (λ _. Going)
            (λ _. ⊥)
      rest = record {
        at = λ w h.
            let (c, there, enough) = start.source (src, dest) m in
            let here : w.files src ≡ some c =
              source_kept os files apart w0 w (src, dest) h.0 m ∙ there in
            rw (not_skipped w c here) (
              finish (src, dest) w (copy_present os fuel src (os.join_name dest src) w) m h
                ((copy_present_returns (src, dest) w c m here enough (h.1 (src, dest) m)).at w
                  refl));
      }

  pub copy_each_returns :
      (es : FileList)
      → ((e : String × String) → In e es → In e files)
      → Contract Going (for_each (copy_one os fuel) es) (λ _. Going) (λ _. ⊥)
  unfolding for_each
  copy_each_returns [] inside = outcome_pure tt (λ w h. h)
  copy_each_returns (e ∷ es) inside =
      outcome_bind (copy_one_returns e (inside e (inl refl)))
        (λ _. copy_each_returns es (λ i n. inside i (inr n)))

  pub Going-at_first : Going w0
  Going-at_first = (λ f _. refl, start.place)
