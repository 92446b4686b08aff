-- ===== src/CopyFiles/Folders.antt =====
-- The copy of one file makes and removes no folder.
use ava_capture.Base.{
  ℕ, zero, suc, ◌==◌, ◌≡◌, String, if◌then◌else◌, Bool, ◌&&◌, Option, none, some, List, take, drop,
  Bool-cases, inl, inr,
}
use ava_capture.Base.Effects.{pure, os_error, unfinished}
use ava_capture.Base.Effects.Rules.{
  Keeps, Keeps-bind, Keeps-lookup, Keeps-if, Keeps-pure, Keeps-raise,
}
use ava_capture.CopyFiles.{
  Disk, Os, append_to, has_file, path_exists, remove, progress, write, goes_on, copy_loop, open_new,
  safe_copy_file, block_size,
}

module _ (os : Os) (F : String → Bool) where
  -- The folders are these.
  abbrev pub SameFolders : Disk → Type 0
  SameFolders w = w.folders ≡ F

  remove-SameFolders : (f : String) → Keeps SameFolders (remove os f)
  unfolding remove
  remove-SameFolders f = record {
    at = λ w h. elim (Bool-cases (has_file (w.files f) && os.removes f)) [
      | inl goes ↦ rw goes h
      | inr stays ↦ rw stays h
    ];
  }

  clear-SameFolders :
      (f : String) → Keeps SameFolders (λ w. (if path_exists w f then remove os f else pure tt) w)
  clear-SameFolders f = record {
    at = λ w.
        (Keeps-if {P = SameFolders} (path_exists w f) (remove-SameFolders f) (Keeps-pure tt)).at w;
  }

  append_to-SameFolders :
      (f : String) (arr : List ℕ) (o : Option (List ℕ)) → Keeps SameFolders (append_to f arr o)
  append_to-SameFolders f arr none = record { at = λ w h. h }
  append_to-SameFolders f arr (some c) = record { at = λ w h. h }

  write-SameFolders : (f : String) (arr : List ℕ) → Keeps SameFolders (write os f arr)
  unfolding write
  write-SameFolders f arr = record {
    at = λ w h. elim (Bool-cases (os.takes f arr)) [
      | inl taken ↦ rw taken ((append_to-SameFolders f arr (w.files f)).at w h)
      | inr refused ↦ rw refused h
    ];
  }

  progress-SameFolders : Keeps SameFolders (progress os)
  unfolding progress
  progress-SameFolders = record {
    at = λ w h. elim (Bool-cases (os.elapsed w.reports == 0)) [
      | inl still ↦ rw still h
      | inr later ↦ rw later h
    ];
  }

  open_new-SameFolders : (f : String) → Keeps SameFolders (open_new os f)
  unfolding open_new
  open_new-SameFolders f = record {
    at = λ w h. elim (Bool-cases (os.opens f)) [
      | inl opened ↦ rw opened h
      | inr refused ↦ rw refused h
    ];
  }

  copy_loop-SameFolders :
      (fuel block : ℕ) (dest : String) (unread : List ℕ)
      → Keeps SameFolders (copy_loop os fuel block dest unread)
  unfolding copy_loop
  copy_loop-SameFolders zero block dest unread = Keeps-raise unfinished
  copy_loop-SameFolders (suc fuel) block dest unread =
      Keeps-if (goes_on os (take block unread))
        (Keeps-bind (write-SameFolders dest (take block unread)) (λ _.
          Keeps-bind progress-SameFolders
            (λ _. copy_loop-SameFolders fuel block dest (drop block unread))))
        (Keeps-pure tt)

  pub safe_copy_file-SameFolders :
      (fuel : ℕ) (src dest : String) → Keeps SameFolders (safe_copy_file os fuel src dest)
  unfolding safe_copy_file
  safe_copy_file-SameFolders fuel src dest = Keeps-bind (clear-SameFolders dest) (λ _.
      Keeps-bind (Keeps-lookup (λ (w : Disk). w.files src) os_error) (λ fin.
        Keeps-bind (open_new-SameFolders dest)
          (λ _. copy_loop-SameFolders fuel block_size dest fin)))
