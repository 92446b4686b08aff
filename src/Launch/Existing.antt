-- ===== src/Launch/Existing.antt =====
-- The jobs that a launch depends on, which stay while it runs.
use ava_capture.Base.{
  ℕ, String, ◌≤◌, ◌≡◌, refl, sym, subst, Bool, true, false, Option, none, some, List, [], ◌∷◌, ◌++◌,
  ◌⊎◌, inl, inr, arith, length, select, str_eq, and_split,
}
use ava_capture.Base.Effects.Rules.{Ends}
use ava_capture.Base.Table.{find, save}
use ava_capture.Farm.{Farm, Job, Status, created, job_key, save_job, ◌>>=◌}
use ava_capture.JobApi.{
  JobChanges, Rest, update, patch_farm_job, patch_found, patch_checked, set_status,
  dependencies_exist, has_job, all_jobs, is_valid,
}
use ava_capture.Launch.{Call, fields_of, request, require}
use ava_capture.Launch.Stored.{Respects, now, update-Stored}
use ava_capture.Launch.Chain.{Kept, RequestRule}

-- No job that is there goes.
abbrev pub KeepsJobs : (Farm → Farm) → Type 0
KeepsJobs others = (d : ℕ) (w : Farm) → has_job w.jobs d ≡ true → has_job (others w).jobs d ≡ true

-- What the site asks of a launch.
pub record Acceptable (rest : Rest) (job_id : Option ℕ) (call : Call) (w : Farm) : Type 0 where
  pub valid : is_valid rest (fields_of job_id call) w ≡ true
  pub machine :
      (name : String)
      → call.node_name ≡ some name
      → length (select (λ n. str_eq n.machine_name name) w.nodes) ≤ 1
  pub dependencies : all_jobs w.jobs call.dependency_list ≡ true

pub all_jobs_mono :
    (js is : List Job)
    → ((d : ℕ) → has_job js d ≡ true → has_job is d ≡ true)
    → (ds : List ℕ) → all_jobs js ds ≡ true
    → all_jobs is ds ≡ true
all_jobs_mono js is h [] e = refl
all_jobs_mono js is h (d ∷ ds) e =
    let (first, others) = and_split (has_job js d) (all_jobs js ds) e in
    rw (h d first) (all_jobs_mono js is h ds others)

pub has_job-append : (d : ℕ) (js is : List Job) → has_job js d ≡ true → has_job (js ++ is) d ≡ true
unfolding find
has_job-append d [] is h = absurd (cc)
has_job-append d (j ∷ js) is h = ground (arith, has_job-append d js is)

has_job-save :
    (d : ℕ) (j : Job) (js : List Job) → has_job js d ≡ true → has_job (save job_key j js) d ≡ true
unfolding find save
has_job-save d j [] h = absurd (cc)
has_job-save d j (i ∷ js) h = ground (arith, has_job-save d j js)

-- The dependencies of the call are there.
abbrev pub HasAll : Call → Farm → Type 0
HasAll call w = all_jobs w.jobs call.dependency_list ≡ true

module _ (call : Call) (name : Option String) (j : Job) (ds : List ℕ) (ts : List String) where
  update-Kept :
      (deps : Option (List ℕ)) (tags : Option (List String)) (s : Option Status) (w : Farm)
      → Kept (HasAll call) name j ds ts w
      → Kept
          (HasAll call)
          name
          (set_status s j)
          (now deps ds)
          (now tags ts)
          (update (record { dependencies_id = deps; tags = tags; status = s }) j w).1
  unfolding update save_job
  update-Kept deps tags s w (h, x) = (
    update-Stored j w h deps tags s,
    all_jobs_mono w.jobs (save job_key (set_status s j) w.jobs)
        (λ d. has_job-save d (set_status s j) w.jobs) call.dependency_list x,
  )

  pub patch_checked-Kept :
      (deps : Option (List ℕ)) (tags : Option (List String)) (s : Option Status) (w : Farm)
      → Kept (HasAll call) name j ds ts w
      → (valid : Bool) → valid ≡ true
      → Ends
          (λ _. Kept (HasAll call) name (set_status s j) (now deps ds) (now tags ts))
          (λ _. ⊥)
          ((request
                (patch_checked valid (record { dependencies_id = deps; tags = tags; status = s }) j)
              >>= require 200)
            w)
  unfolding update save_job
  patch_checked-Kept deps tags s w h true e = update-Kept deps tags s w h
  patch_checked-Kept deps tags s w h false e = absurd (cc)

  dependencies_exist-HasAll :
      (deps : Option (List ℕ)) (w : Farm)
      → (deps ≡ none) ⊎ (deps ≡ some call.dependency_list)
      → HasAll call w
      → dependencies_exist w.jobs deps ≡ true
  dependencies_exist-HasAll none w which x = refl
  dependencies_exist-HasAll (some given) w (inl e) x = absurd (cc)
  dependencies_exist-HasAll (some given) w (inr e) x =
      let same : call.dependency_list ≡ given = cc in subst (λ l. all_jobs w.jobs l ≡ true) same x

module _ (others : Farm → Farm) (respects : Respects others) (keeps : KeepsJobs others) where
  pub server_patch-Kept :
      (call : Call) (name : Option String) (j : Job)
      → j.status ≡ created
      → RequestRule others (HasAll call) (λ _. ⊥) name call.dependency_list j
  unfolding patch_farm_job
  server_patch-Kept call name j e ds ts deps tags s which = record {
    at = λ w (h, x).
        let held = respects.at name j ds ts w e h in
        let there : HasAll call (others w) =
          all_jobs_mono w.jobs (others w).jobs (λ d. keeps d w) call.dependency_list x in
        let changes : JobChanges = record { dependencies_id = deps; tags = tags; status = s } in
        subst
          (λ (o : Option Job).
            Ends (λ _. Kept (HasAll call) name (set_status s j) (now deps ds) (now tags ts))
              (λ _. ⊥) ((request (patch_found changes o) >>= require 200) (others w)))
          (sym held.row)
          (patch_checked-Kept call name j ds ts deps tags s (others w) (held, there)
            (dependencies_exist (others w).jobs deps)
            (dependencies_exist-HasAll call name j ds ts deps (others w) which there));
  }
