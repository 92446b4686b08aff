-- ===== src/Launch/Held.antt =====
-- The outcomes of a launch, whatever happens on the site between its requests.
use ava_capture.Base.{
  ⊤, ℕ, String, ◌≡◌, refl, sym, subst, ◌∙◌, Bool, true, false, Option, some, List, [], arith,
}
use ava_capture.Base.Effects.Rules.{Ends, Contract, outcome_weaken, outcome_conseq}
use ava_capture.Base.Table.{find}
use ava_capture.Farm.{Farm, Job, Status, created, save_job, job_key, ◌>>=◌}
use ava_capture.JobApi.{
  JobChanges, update, patch_farm_job, patch_checked, patch_found, dependencies_exist, set_status,
}
use ava_capture.Launch.{Call, delayed_status, request, require, server_patch, patch_job}
use ava_capture.Launch.Stored.{Stored, Respects, now, update-Stored}
use ava_capture.Launch.Chain.{with_status, patch_job-Kept}
use ava_capture.Scheduler.{Offer, is_candidate}

-- Where there is a job with this key, it is `created`, and no node is offered it.
abbrev pub HeldBack : ℕ → Farm → Type 0
HeldBack k w =
    (j : Job)
    → find job_key k w.jobs ≡ some j
    → (j.status ≡ created) × ((o : Offer) → is_candidate o w j ≡ false)

pub created-HeldBack :
    (k : ℕ) (i : Job) (w : Farm)
    → find job_key k w.jobs ≡ some i
    → i.status ≡ created
    → HeldBack k w
unfolding is_candidate
created-HeldBack k i w there e j found =
    let same : i ≡ j = some_eq (sym there ∙ found) in
    let status : j.status ≡ created = subst (λ (a : Job). a.status ≡ created) same e in
    (status, λ o. refused status o)
  where
    some_eq : {A : Type 0} {a b : A} → some a ≡ some b → a ≡ b
    some_eq h = cc

    refused : j.status ≡ created → (o : Offer) → is_candidate o w j ≡ false
    refused status o = ground arith

-- One PATCH of a launch: it is done, or it is refused and leaves the job as it was.
patch_checked-Ends :
    (name : Option String) (j : Job) (ds : List ℕ) (ts : List String) (deps : Option (List ℕ))
    (tags : Option (List String)) (s : Option Status) (w : Farm)
    → Stored name j ds ts w
    → (valid : Bool)
    → Ends
        (λ _. Stored name (set_status s j) (now deps ds) (now tags ts))
        (Stored name j ds ts)
        ((request
              (patch_checked valid (record { dependencies_id = deps; tags = tags; status = s }) j)
            >>= require 200)
          w)
unfolding update save_job
patch_checked-Ends name j ds ts deps tags s w stored true = update-Stored j w stored deps tags s
patch_checked-Ends name j ds ts deps tags s w stored false = stored

module _ (others : Farm → Farm) (respects : Respects others) where
  server_patch-Contract :
      (name : Option String) (j : Job) (ds : List ℕ) (ts : List String) (deps : Option (List ℕ))
      (tags : Option (List String)) (s : Option Status)
      → j.status ≡ created
      → Contract
          (Stored name j ds ts)
          (server_patch others j.id (record { dependencies_id = deps; tags = tags; status = s }))
          (λ _. Stored name (set_status s j) (now deps ds) (now tags ts))
          (Stored name j ds ts)
  unfolding patch_farm_job
  server_patch-Contract name j ds ts deps tags s e = record {
    at = λ w h.
        let held = respects.at name j ds ts w e h in
        let changes : JobChanges = record { dependencies_id = deps; tags = tags; status = s } in
        subst
          (λ (o : Option Job).
            Ends (λ _. Stored name (set_status s j) (now deps ds) (now tags ts))
              (Stored name j ds ts) ((request (patch_found changes o) >>= require 200) (others w)))
          (sym held.row)
          (patch_checked-Ends name j ds ts deps tags s (others w) held
            (dependencies_exist (others w).jobs deps));
  }

  -- The requests that follow the first one.
  pub patch_job-Contract :
      (call : Call) (base : Job) (name : Option String)
      → Contract
          (Stored name (with_status call base (delayed_status call)) [] [])
          (patch_job others call base.id)
          (λ _. Stored name (with_status call base false) call.dependency_list call.tags)
          (HeldBack base.id)
  patch_job-Contract call base name =
      outcome_conseq (λ w h. (h, tt)) (λ _ w h. h.0)
        (patch_job-Kept others (λ _. ⊤) (HeldBack base.id) call base name
          (λ ds ts deps tags s _.
            outcome_weaken
              (λ w h. created-HeldBack base.id (with_status call base true) w h.row refl)
              (outcome_conseq (λ w h. h.0) (λ _ w h. (h, tt))
                (server_patch-Contract name (with_status call base true) ds ts deps tags s refl))))
