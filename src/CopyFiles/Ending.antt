-- ===== src/CopyFiles/Ending.antt =====
-- When the copy of one file ends.
use ava_capture.Base.{
  ⊤, ℕ, zero, suc, ◌==◌, ◌<◌, ◌≡◌, refl, sym, ap, subst, ◌∙◌, String, str_eq, if◌then◌else◌, true,
  false, some, List, [], ◌∷◌, ◌++◌, length, take, drop, arith, Bool-cases, inl, inr,
}
use ava_capture.Base.Effects.{pure, or_raise, os_error}
use ava_capture.Base.Effects.Rules.{
  Ends, Contract, outcome_bind, outcome_pure, outcome_if, outcome_conseq, outcome_given,
  outcome_fine,
}
use ava_capture.CopyFiles.{
  Disk, Os, append_to, has_file, path_exists, remove, progress, write, goes_on, no_bytes, copy_loop,
  open_new, safe_copy_file,
}
use ava_capture.CopyFiles.Loop.{
  Elsewhere, Written, write-Contract, progress-Contract, remove-Contract, open_new-Contract,
  read-Contract, append_assoc, append_nil, take-drop, length-drop, no_bytes-take,
}

-- Nothing that the job asks for is refused, time goes by, and an empty read is an empty text.
pub record Willing (os : Os) : Type 0 where
  pub makes_folder : (f : String) → os.makes_folder f ≡ true
  pub removes : (f : String) → os.removes f ≡ true
  pub opens : (f : String) → os.opens f ≡ true
  pub takes : (f : String) (arr : List ℕ) → os.takes f arr ≡ true
  pub elapsed : (n : ℕ) → os.elapsed n == 0 ≡ false
  pub empty_is_text : os.empty_is_text ≡ true

module _ (os : Os) (willing : Willing os) (dest : String) (w0 : Disk) where
  write_returns :
      (c arr : List ℕ)
      → Contract
          (Written os dest w0 c)
          (write os dest arr)
          (λ _. Written os dest w0 (c ++ arr))
          (λ _. ⊥)
  unfolding write
  write_returns c arr = outcome_fine (write-Contract os dest w0 c arr) (record {
    at = λ w (kept, held).
        rw (willing.takes dest arr)
          (subst (λ o. Ends {A = ⊤} (λ _ _. ⊤) (λ _. ⊥) (append_to dest arr o w)) (sym held) tt);
  })

  progress_returns :
      (c : List ℕ)
      → Contract (Written os dest w0 c) (progress os) (λ _. Written os dest w0 c) (λ _. ⊥)
  unfolding progress
  progress_returns c =
      outcome_fine (progress-Contract os dest w0 c)
        (record { at = λ w h. rw (willing.elapsed w.reports) tt })

  -- With fuel beyond the length of what is not read, the loop ends, and has written all of it.
  pub copy_loop_returns :
      (n fuel : ℕ) (c unread : List ℕ)
      → length unread < fuel
      → Contract
          (Written os dest w0 c)
          (copy_loop os fuel (suc n) dest unread)
          (λ _. Written os dest w0 (c ++ unread))
          (λ _. ⊥)
  unfolding copy_loop
  copy_loop_returns n zero c unread h = absurd (omega arith)
  copy_loop_returns n (suc fuel) c unread h =
      outcome_if (goes_on os (take (suc n) unread))
        (λ more. outcome_bind (write_returns c (take (suc n) unread)) (λ _.
          outcome_bind (progress_returns (c ++ take (suc n) unread)) (λ _.
            outcome_conseq (λ w h. h)
              (λ _ w h. (
                h.0,
                h.1
                    ∙ ap some (
                        append_assoc c (take (suc n) unread) (drop (suc n) unread)
                        ∙ ap (λ l. c ++ l) (take-drop (suc n) unread)),
              ))
              (copy_loop_returns n fuel (c ++ take (suc n) unread) (drop (suc n) unread)
                (length-drop n unread fuel h (some_left unread more))))))
        (λ stopped.
          outcome_pure tt (λ w h.
            (h.0, h.1 ∙ ap some (sym (append_nil c) ∙ ap (λ l. c ++ l) (read_all stopped)))))
    where
      read_all : goes_on os (take (suc n) unread) ≡ false → [] ≡ unread
      read_all stopped = no_bytes-take n unread (ground arith)

      some_left : (l : List ℕ) → goes_on os (take (suc n) l) ≡ true → no_bytes l ≡ false
      some_left [] more = let e = willing.empty_is_text in ground arith
      some_left (x ∷ l) more = refl

  remove_returns :
      (not_folder : w0.folders dest ≡ false)
      → Contract
          (λ w. Elsewhere dest w0 w × (w.folders dest ≡ false))
          (λ w. (if path_exists w dest then remove os dest else pure tt) w)
          (λ _. Elsewhere dest w0)
          (λ _. ⊥)
  unfolding remove
  remove_returns not_folder =
      outcome_fine (outcome_conseq (λ w h. h.0) (λ _ w h. h) (remove-Contract os dest w0)) (record {
        at = λ w (kept, free). elim (Bool-cases (has_file (w.files dest))) [
          | inl there ↦ rw (there, willing.removes dest, there) tt
          | inr absent ↦ rw (absent, free) tt
        ];
      })

  open_new_returns :
      Contract (Elsewhere dest w0) (open_new os dest) (λ _. Written os dest w0 []) (λ _. ⊥)
  unfolding open_new
  open_new_returns =
      outcome_fine (open_new-Contract os dest w0)
        (record { at = λ w h. rw (willing.opens dest) tt })

  read_returns :
      (src : String) (bytes : List ℕ)
      → str_eq src dest ≡ false
      → w0.files src ≡ some bytes
      → Contract
          (Elsewhere dest w0)
          (λ w. or_raise (w.files src) os_error w)
          (λ fin w. Elsewhere dest w0 w × (w0.files src ≡ some fin))
          (λ _. ⊥)
  read_returns src bytes apart there = outcome_fine (read-Contract os dest w0 src apart) (record {
    at = λ w kept.
        subst (λ o. Ends {A = List ℕ} (λ _ _. ⊤) (λ _. ⊥) (or_raise o os_error w))
          (sym (kept src apart ∙ there)) tt;
  })

  -- The copy of a file that is there, to a place that is no folder, with fuel beyond its length.
  pub safe_copy_file_returns :
      (fuel : ℕ) (src : String) (bytes : List ℕ)
      → str_eq src dest ≡ false
      → w0.files src ≡ some bytes
      → length bytes < fuel
      → w0.folders dest ≡ false
      → Contract
          (λ w. w ≡ w0)
          (safe_copy_file os fuel src dest)
          (λ _ w. Elsewhere dest w0 w × (w.files dest ≡ w0.files src))
          (λ _. ⊥)
  unfolding safe_copy_file
  safe_copy_file_returns fuel src bytes apart there enough not_folder =
      outcome_bind
        (outcome_conseq
          (λ w e.
            subst (λ v. Elsewhere dest w0 v × (v.folders dest ≡ false)) (sym e)
              (λ g _. refl, not_folder))
          (λ _ w h. h) (remove_returns not_folder))
        (λ _. outcome_bind (read_returns src bytes apart there) (λ fin.
          outcome_given (λ (found : w0.files src ≡ some fin). outcome_bind open_new_returns (λ _.
            outcome_conseq (λ w h. h) (λ _ w h. (h.0, h.1 ∙ sym found))
              (copy_loop_returns 67_108_863 fuel [] fin
                (subst (λ l. length l < fuel) (same_bytes fin found) enough))))))
    where
      same_bytes : (fin : List ℕ) → w0.files src ≡ some fin → bytes ≡ fin
      same_bytes fin found = cc
