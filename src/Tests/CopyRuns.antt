-- ===== src/Tests/CopyRuns.antt =====
-- A take that is exported from one machine, and its files, copied and deleted.
use text.Mathlib.TextEquality.{eq_iff}
use ava_capture.Base.{
  In, ◌≡◌, refl, arith, sym, ap, ◌∙◌, true, false, none, some, List, [], ◌∷◌, ◌++◌, String,
  if◌then◌else◌, str_eq, select, inl, inr,
}
use ava_capture.Base.Effects.{ok, err, for_each}
use ava_capture.Base.Effects.Rules.{Ends}
use ava_capture.Base.Table.{find}
use ava_capture.Farm.{Farm, Job, running, yield_to_children}
use ava_capture.CopyFiles.{
  Disk, Os, FileList, copy_files, copy_one, copy_present, make_folder, safe_copy_file, copy_loop,
  open_new, write, progress, remove, delete_source,
}
use ava_capture.CopyFiles.Apart.{Apart, copy_of, Secured, Untouched}
use ava_capture.CopyFiles.Secured.{copy_files-Secured}
use ava_capture.CopyFiles.Ending.{Willing}
use ava_capture.CopyFiles.Returns.{Ready}
use ava_capture.CopyFiles.Moved.{copy_files_returns}
use ava_capture.ExportTake.{DumpsCopy, export_take_job}
use ava_capture.ExportTake.Launches.{CanLaunch, OneEach}
use ava_capture.ExportTake.Exported.{export_take_job-OneEach}
use ava_capture.Tests.Samples.{env, job, farm, ann}
use ava_capture.Tests.LaunchRuns.{rest, end_running, one_row}

abbrev pub listed : FileList
listed = ("a.avi", "out") ∷ ("b.avi", "out") ∷ []

-- A file keeps its name in the folder, and every operation is allowed.
abbrev pub os : Os
os = record {
  makes_folder = λ _. true;
  removes = λ _. true;
  opens = λ _. true;
  takes = λ _ _. true;
  join_name = λ dest src. if str_eq src "a.avi" then "out/a.avi" else "out/b.avi";
  elapsed = λ _. 3;
  empty_is_text = true;
}

abbrev pub disk : Disk
disk = record {
  files = λ f.
      if str_eq f "a.avi"
      then some (1 ∷ 2 ∷ [])
      else if str_eq f "b.avi"
      then some (7 ∷ [])
      else none;
  folders = λ _. false;
  reports = 0;
}

two_places : ◌≡◌ {A = String} "out/a.avi" "out/b.avi" → ⊥
two_places e =
    let hit : str_eq "out/a.avi" "out/b.avi" ≡ true = (eq_iff "out/a.avi" "out/b.avi").1 e in cc

pub listed-Apart : Apart os listed
listed-Apart = record {
  source = λ e i m n. elim m [
    | inl p ↦ elim n [
      | inl q ↦ rw (p, q) refl
      | inr (inl q) ↦ rw (p, q) refl
      | inr (inr none_left) ↦ absurd none_left
    ]
    | inr (inl p) ↦ elim n [
      | inl q ↦ rw (p, q) refl
      | inr (inl q) ↦ rw (p, q) refl
      | inr (inr none_left) ↦ absurd none_left
    ]
    | inr (inr none_left) ↦ absurd none_left
  ];
  target = λ e i m n same. elim m [
    | inl p ↦ elim n [
      | inl q ↦ ap (λ x. x.0) p ∙ sym (ap (λ x. x.0) q)
      | inr (inl q) ↦ absurd (two_places (sym (ap (copy_of os) p) ∙ same ∙ ap (copy_of os) q))
      | inr (inr none_left) ↦ absurd none_left
    ]
    | inr (inl p) ↦ elim n [
      | inl q ↦ absurd (two_places (sym (ap (copy_of os) q) ∙ sym same ∙ ap (copy_of os) p))
      | inr (inl q) ↦ ap (λ x. x.0) p ∙ sym (ap (λ x. x.0) q)
      | inr (inr none_left) ↦ absurd none_left
    ]
    | inr (inr none_left) ↦ absurd none_left
  ];
}

copy_files-Secured_example :
    Ends
      (λ _. Secured os listed disk)
      (Untouched os listed disk)
      (copy_files os 9 (some listed) true disk)
copy_files-Secured_example = copy_files-Secured os 9 listed true disk listed-Apart

os-Willing : Willing os
os-Willing = record {
  makes_folder = λ _. refl;
  removes = λ _. refl;
  opens = λ _. refl;
  takes = λ _ _. refl;
  elapsed = λ _. refl;
  empty_is_text = refl;
}

disk-Ready : Ready os 9 listed disk
disk-Ready = record {
  source = λ e m. elim m [
    | inl p ↦ (1 ∷ 2 ∷ [], rw p refl, omega arith)
    | inr (inl p) ↦ (7 ∷ [], rw p refl, omega arith)
    | inr (inr none_left) ↦ absurd none_left
  ];
  place = λ e m. refl;
  folder = λ e i m n. elim m [
    | inl p ↦ elim n [
      | inl q ↦ rw (p, q) refl
      | inr (inl q) ↦ rw (p, q) refl
      | inr (inr none_left) ↦ absurd none_left
    ]
    | inr (inl p) ↦ elim n [
      | inl q ↦ rw (p, q) refl
      | inr (inl q) ↦ rw (p, q) refl
      | inr (inr none_left) ↦ absurd none_left
    ]
    | inr (inr none_left) ↦ absurd none_left
  ];
}

copy_files_returns_example :
    (w' : Disk) × (copy_files os 9 (some listed) true disk ≡ (ok tt, w'))
    × Secured os listed disk w'
    × ((e : String × String) → In e listed → w'.files e.0 ≡ none)
copy_files_returns_example = copy_files_returns os 9 listed disk os-Willing listed-Apart disk-Ready

abbrev dumps : DumpsCopy
dumps = λ _ root _. root

abbrev exporting : Farm
exporting = farm (job 1 none running ∷ [])

exporting-CanLaunch : CanLaunch 1 exporting
unfolding find select
exporting-CanLaunch = record {
  parent_there = refl;
  one_machine = λ name. one_row (str_eq "render1" name);
}

export_take_job-OneEach_example :
    (js : List Job) × (w' : Farm) × (export_take_job env rest ann end_running
        (some 1)
        dumps
        (record { root_export_path = some "store"; nodes = some (("cam1", listed) ∷ []) })
        exporting
      ≡ (err yield_to_children, w'))
    × (w'.jobs ≡ exporting.jobs ++ js)
    × OneEach dumps "store" 1 w'.nodes (("cam1", listed) ∷ []) js
export_take_job-OneEach_example =
    export_take_job-OneEach env rest ann end_running 1 dumps "store" (λ _. refl) ("cam1", listed) []
      exporting exporting-CanLaunch

-- The two files, moved: each has its bytes at its place, and none at the source.
moves_both :
    (let w' = (copy_files os 9 (some listed) true disk).1 in
      (w'.files "out/a.avi" ≡ some (1 ∷ 2 ∷ []))
      × (w'.files "out/b.avi" ≡ some (7 ∷ []))
      × (w'.files "a.avi" ≡ none))
unfolding copy_files copy_one copy_present make_folder safe_copy_file copy_loop open_new write
    progress remove delete_source for_each
moves_both = (refl, refl, refl)
