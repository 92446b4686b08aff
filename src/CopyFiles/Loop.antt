-- ===== src/CopyFiles/Loop.antt =====
-- What the copy of one file leaves, and when it ends.
use text.Mathlib.TextEquality.{eq_iff}
use ava_capture.Base.{
  ℕ, zero, suc, ◌==◌, ◌<◌, ◌≡◌, refl, sym, ap, subst, ◌∙◌, String, str_eq, if◌then◌else◌, true,
  false, ◌&&◌, Option, none, some, List, [], ◌∷◌, ◌++◌, length, take, drop, arith, Bool-cases, inl,
  inr,
}
use ava_capture.Base.Effects.{pure, or_raise, os_error, unfinished}
use ava_capture.Base.Effects.Rules.{
  Ends, Contract, outcome_bind, outcome_pure, outcome_raise, outcome_if, outcome_conseq,
  outcome_given,
}
use ava_capture.CopyFiles.{
  Disk, Os, append_to, put, has_file, path_exists, remove, progress, write, goes_on, no_bytes,
  copy_loop, open_new, safe_copy_file,
}

-- Every file but this one is as it was.
abbrev pub Elsewhere : String → Disk → Disk → Type 0
Elsewhere f w w' = (g : String) → str_eq g f ≡ false → w'.files g ≡ w.files g

pub str_eq_refl : (s : String) → str_eq s s ≡ true
str_eq_refl s = (eq_iff s s).1 refl

put-Elsewhere : (f : String) (c : Option (List ℕ)) (w : Disk) → Elsewhere f w (put f c w)
put-Elsewhere f c w g other = rw other refl

pub put_self : (f : String) (c : Option (List ℕ)) (w : Disk) → (put f c w).files f ≡ c
put_self f c w = rw (str_eq_refl f) refl

pub append_assoc : (xs ys zs : List ℕ) → (xs ++ ys) ++ zs ≡ xs ++ (ys ++ zs)
append_assoc [] ys zs = refl
append_assoc (x ∷ xs) ys zs = ap (λ l. x ∷ l) (append_assoc xs ys zs)

pub append_nil : (xs : List ℕ) → xs ++ [] ≡ xs
append_nil [] = refl
append_nil (x ∷ xs) = ap (λ l. x ∷ l) (append_nil xs)

pub take-drop : (n : ℕ) (xs : List ℕ) → take n xs ++ drop n xs ≡ xs
take-drop zero xs = refl
take-drop (suc n) [] = refl
take-drop (suc n) (x ∷ xs) = ap (λ l. x ∷ l) (take-drop n xs)

-- A block that is empty is the end of the file.
pub no_bytes-take : (n : ℕ) (xs : List ℕ) → no_bytes (take (suc n) xs) ≡ true → [] ≡ xs
no_bytes-take n [] e = refl
no_bytes-take n (x ∷ xs) e = cc

pub length-drop :
    (n : ℕ) (xs : List ℕ) (fuel : ℕ)
    → length xs < suc fuel
    → no_bytes xs ≡ false
    → length (drop (suc n) xs) < fuel
length-drop n [] fuel h e = cc
length-drop n (x ∷ xs) fuel h e = ground (arith, shorter n xs)
  where
    shorter : (m : ℕ) (ys : List ℕ) → length (drop m ys) < suc (length ys)
    shorter zero ys = omega arith
    shorter (suc m) [] = omega arith
    shorter (suc m) (y ∷ ys) = ground (arith, shorter m ys)

module _ (os : Os) (dest : String) (w0 : Disk) where
  -- The file has been written up to here, and nothing else has changed.
  abbrev pub Written : List ℕ → Disk → Type 0
  Written c w = Elsewhere dest w0 w × (w.files dest ≡ some c)

  pub write-Contract :
      (c arr : List ℕ)
      → Contract (Written c) (write os dest arr) (λ _. Written (c ++ arr)) (Elsewhere dest w0)
  unfolding write
  write-Contract c arr = record {
    at = λ w (kept, held). elim (Bool-cases (os.takes dest arr)) [
      | inl taken ↦ rw taken (
          subst (λ o. Ends (λ _. Written (c ++ arr)) (Elsewhere dest w0) (append_to dest arr o w))
            (sym held) (λ g other. rw other (kept g other), put_self dest (some (c ++ arr)) w))
      | inr refused ↦ rw refused kept
    ];
  }

  pub progress-Contract :
      (c : List ℕ) → Contract (Written c) (progress os) (λ _. Written c) (Elsewhere dest w0)
  unfolding progress
  progress-Contract c = record {
    at = λ w (kept, held). elim (Bool-cases (os.elapsed w.reports == 0)) [
      | inl still ↦ rw still kept
      | inr later ↦ rw later (kept, held)
    ];
  }

  -- The loop that ends has written what was not read yet; one that does not end, or fails, has
  -- changed no other file.
  copy_loop-Contract :
      (n fuel : ℕ) (c unread : List ℕ)
      → Contract
          (Written c)
          (copy_loop os fuel (suc n) dest unread)
          (λ _. Written (c ++ unread))
          (Elsewhere dest w0)
  unfolding copy_loop
  copy_loop-Contract n zero c unread = outcome_raise unfinished (λ w h. h.0)
  copy_loop-Contract n (suc fuel) c unread =
      outcome_if (goes_on os (take (suc n) unread))
        (λ _. outcome_bind (write-Contract c (take (suc n) unread)) (λ _.
          outcome_bind (progress-Contract (c ++ take (suc n) unread)) (λ _.
            outcome_conseq (λ w h. h)
              (λ _ w h. (
                h.0,
                h.1
                    ∙ ap some (
                        append_assoc c (take (suc n) unread) (drop (suc n) unread)
                        ∙ ap (λ l. c ++ l) (take-drop (suc n) unread)),
              ))
              (copy_loop-Contract n fuel (c ++ take (suc n) unread) (drop (suc n) unread)))))
        (λ stopped.
          outcome_pure tt (λ w h.
            (h.0, h.1 ∙ ap some (sym (append_nil c) ∙ ap (λ l. c ++ l) (read_all stopped)))))
    where
      read_all : goes_on os (take (suc n) unread) ≡ false → [] ≡ unread
      read_all stopped = no_bytes-take n unread (ground arith)

  pub remove-Contract :
      Contract
        (Elsewhere dest w0)
        (λ w. (if path_exists w dest then remove os dest else pure tt) w)
        (λ _. Elsewhere dest w0)
        (Elsewhere dest w0)
  unfolding remove
  remove-Contract = record {
    at = λ w kept. elim (Bool-cases (path_exists w dest)) [
      | inr none_there ↦ rw none_there kept
      | inl there ↦ elim (Bool-cases (has_file (w.files dest) && os.removes dest)) [
        | inl goes ↦ rw (there, goes) (λ g other. rw other (kept g other))
        | inr stays ↦ rw (there, stays) kept
      ]
    ];
  }

  pub open_new-Contract :
      Contract (Elsewhere dest w0) (open_new os dest) (λ _. Written []) (Elsewhere dest w0)
  unfolding open_new
  open_new-Contract = record {
    at = λ w kept. elim (Bool-cases (os.opens dest)) [
      | inl opened ↦ rw opened (λ g other. rw other (kept g other), put_self dest (some []) w)
      | inr refused ↦ rw refused kept
    ];
  }

  pub read-Contract :
      (src : String)
      → str_eq src dest ≡ false
      → Contract
          (Elsewhere dest w0)
          (λ w. or_raise (w.files src) os_error w)
          (λ fin w. Elsewhere dest w0 w × (w0.files src ≡ some fin))
          (Elsewhere dest w0)
  read-Contract src apart = record {
    at = λ w kept.
        subst
          (λ o.
            Ends (λ fin w'. Elsewhere dest w0 w' × (w0.files src ≡ some fin)) (Elsewhere dest w0)
              (or_raise o os_error w))
          (sym (kept src apart)) (by_source (w0.files src) refl w kept);
  }
    where
      by_source :
          (o : Option (List ℕ))
          → w0.files src ≡ o
          → (w : Disk) → Elsewhere dest w0 w
          → Ends
              (λ fin w'. Elsewhere dest w0 w' × (w0.files src ≡ some fin))
              (Elsewhere dest w0)
              (or_raise o os_error w)
      by_source none e w kept = kept
      by_source (some fin) e w kept = (kept, e)

  -- A copy that returns has made the file what its source is; in any case no other file changes.
  pub safe_copy_file-Contract :
      (fuel : ℕ) (src : String)
      → str_eq src dest ≡ false
      → Contract
          (Elsewhere dest w0)
          (safe_copy_file os fuel src dest)
          (λ _ w. Elsewhere dest w0 w × (w.files dest ≡ w0.files src))
          (Elsewhere dest w0)
  unfolding safe_copy_file
  safe_copy_file-Contract fuel src apart = outcome_bind remove-Contract (λ _.
      outcome_bind (read-Contract src apart) (λ fin. outcome_given (λ there.
        outcome_bind open_new-Contract (λ _.
          outcome_conseq (λ w h. h) (λ _ w h. (h.0, h.1 ∙ sym there))
            (copy_loop-Contract 67_108_863 fuel [] fin)))))
