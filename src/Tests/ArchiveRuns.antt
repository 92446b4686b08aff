-- ===== src/Tests/ArchiveRuns.antt =====
-- Requests to the archive, on the sample site with a take.
use ava_capture.Base.{
  String, ◌≡◌, ◌≢◌, ◌<◌, refl, sym, subst, true, false, none, some, List, [], ◌∷◌, In, inl, inr,
  contains,
}
use ava_capture.Base.Int.{pos}
use ava_capture.Farm.{Farm, User, created, ready}
use ava_capture.Scheduler.{unmet_dependencies}
use ava_capture.Archive.Export.Waits.{create_dependent-Waits}
use ava_capture.Site.{Site, Take, Recording, ok}
use ava_capture.Capture.Takes.{next_take_of}
use ava_capture.Archive.{Paths}
use ava_capture.Archive.Files.{split}
use ava_capture.Archive.Deletion.{post_delete_takes}
use ava_capture.Capture.Takes.Reports.{Recorder, Meta, all_files}
use ava_capture.Archive.Deletion.Complete.{IsAsked, post_delete_takes_complete}
use ava_capture.Archive.Export.{create_dependent}
use ava_capture.Tests.SiteSamples.{site, studio, sample_shot}
use ava_capture.Tests.Samples.{env, farm, job}

abbrev paths : Paths
paths = record { join = λ a b. b; base_name = λ f. f; text_le = λ _ _. true }

abbrev root : User
root = record { username = "root"; is_superuser = true }

abbrev old_take : Take
old_take = record (next_take_of studio sample_shot false false) {
  id = 4;
  export_path = some "/out";
}

abbrev recording : Recording
recording = record {
  id = 1;
  take = 4;
  machine_name = "stage";
  unique_id = "A";
  model = "";
  version = "";
  using_sync = true;
  folder = "a.avi";
  thumbnail_filename = none;
  width = 1;
  height = 1;
  bitdepth = 8;
  frame_count = 1;
  dropped_frames = 0;
  total_size = 9;
  duration = "";
  framerate = "";
  all_files = some "a;b";
  rotation = pos 0;
  exposure_ms = "";
}

abbrev archive : Site
archive = record site { takes = old_take ∷ []; recordings = recording ∷ [] }

abbrev filmed : Recorder
filmed = record { filenames = "take.avi" ∷ []; total_size = 9 }

abbrev reel : Meta
reel = record {
  meta_filename = "take.txt";
  bitdepth = 8;
  frame_count = 12;
  missing_frames = 0;
  duration = "0.4";
}

all_listed : (cam : Recording) → In cam archive.recordings → cam.all_files ≢ none
all_listed cam (inl e) = subst (λ (c : Recording). c.all_files ≢ none) (sym e) (λ h. absurd (cc))
all_listed cam (inr m) = absurd m

post_delete_takes_complete_example :
    (w' : Site) × (post_delete_takes env paths (λ _ machine. machine) root (some (4 ∷ [])) archive
      ≡ (ok 200, w'))
    × ((take : Take) → In take w'.takes → contains (4 ∷ []) take.id ≡ false)
    × ((take : Take) (cam : Recording) (text file : String)
        → In take archive.takes
        → contains (4 ∷ []) take.id ≡ true
        → In cam archive.recordings
        → cam.take ≡ take.id
        → cam.all_files ≡ some text
        → In file (split text)
        → (files : List String) × In file files
          × IsAsked env (λ _ machine. machine) root (cam.machine_name, files) w'.farm)
post_delete_takes_complete_example =
    post_delete_takes_complete env paths (λ _ machine. machine) root (4 ∷ []) archive refl
      all_listed

-- A farm with a job that exports.
abbrev exporting : Farm
exporting = farm (job 1 none ready ∷ [])

create_dependent-Waits_example :
    (f' : Farm) × (create_dependent (job 0 none created) 1 exporting ≡ (ok tt, f'))
    × In (record (job 0 none created) { id = exporting.next_job; status = ready }) f'.jobs
    × (0
        < unmet_dependencies f'
            (record (job 0 none created) { id = exporting.next_job; status = ready }))
create_dependent-Waits_example =
    create_dependent-Waits (job 0 none created) (job 1 none ready) exporting (inl refl) refl refl
