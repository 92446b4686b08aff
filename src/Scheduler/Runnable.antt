-- ===== src/Scheduler/Runnable.antt =====
-- What a job must satisfy to run on a node, said without the tests of the code, and that the code
-- takes such a job.
use ava_capture.Base.{
  String, ◌≡◌, ◌≢◌, refl, true, false, ◌⊎◌, inl, inr, none, some, In, Option-cases,
  contains_text→In, In→contains_text,
}
use ava_capture.Base.Int.{ℤ, pos, ◌≤ℤ◌}
use ava_capture.Farm.{Farm, Job, ready, running, success}
use ava_capture.Scheduler.{Offer, pick}
use ava_capture.Scheduler.Picking.{is_runnable, runnable_parts, pick-some, pick-none}
use ava_capture.Scheduler.Conditions.{
  is_light, candidate-parts, parts-candidate, tags-excluded, excluded-tags, open-channel,
  channel-open, met-dependencies, dependencies-met, gpu-fits, fits-gpu,
}

-- A job that may run on the node of an offer with `gpu_count` GPUs.
pub record Runnable (o : Offer) (gpu_count : ℤ) (w : Farm) (j : Job) : Type 0 where
  pub is_ready : j.status ≡ ready
  pub version : j.req_version ≤ℤ o.node.code_version
  pub place : (j.node ≡ some o.node.id) ⊎ (o.node.active ≡ true) × (j.node ≡ none)
  pub class : In j.job_class o.available
  pub tags : (t : String) → In (j.id, t) w.job_tags → In t o.excluded → ⊥
  pub gpu : gpu_count ≤ℤ pos 0 → j.req_gpu ≡ false
  pub channel :
      (r : Job)
      → In r w.jobs
      → r.status ≡ running
      → r.node ≡ some o.node.id
      → is_light r ≢ is_light j
  pub dependencies : (d : Job) → In d w.jobs → In (j.id, d.id) w.dependencies → d.status ≡ success

-- The tests of the query, of the channels and of the loop hold of a job exactly when it may run.
module _ (o : Offer) (gpu_count : ℤ) (w : Farm) (j : Job) where
  Runnable-if_passed : is_runnable o gpu_count w j ≡ true → Runnable o gpu_count w j
  Runnable-if_passed r =
      let (candidate, gpu, open_channel, met) = runnable_parts o gpu_count w j r in
      let (status, version, place, class, tags) = candidate-parts o gpu_count w j candidate in
      record {
        is_ready = status;
        version = version;
        place = place;
        class = contains_text→In o.available j.job_class class;
        tags = tags-excluded o gpu_count w j tags;
        gpu = fits-gpu gpu_count j gpu;
        channel = open-channel o gpu_count w j open_channel;
        dependencies = met-dependencies o gpu_count w j met;
      }

  Runnable-passes : Runnable o gpu_count w j → is_runnable o gpu_count w j ≡ true
  Runnable-passes r =
      let candidate =
        parts-candidate o gpu_count w j r.is_ready r.version r.place
          (In→contains_text o.available j.job_class r.class)
          (excluded-tags o gpu_count w j r.tags) in
      rw
        (
          candidate,
          gpu-fits gpu_count j r.gpu,
          channel-open o gpu_count w j r.channel,
          dependencies-met o gpu_count w j r.dependencies,
        )
        refl

-- The job that the scheduler picks is stored, may run on the node, and no stored job that may run
-- there has a higher priority.
pub pick-Runnable :
    (o : Offer) (gpu_count : ℤ) (w : Farm) (j : Job)
    → pick o gpu_count w ≡ some j
    → In j w.jobs
      × Runnable o gpu_count w j
      × ((a : Job) → In a w.jobs → Runnable o gpu_count w a → a.priority ≤ℤ j.priority)
pick-Runnable o gpu_count w j h =
    let (stored, runs, highest) = pick-some o gpu_count w j h in
    (
      stored,
      Runnable-if_passed o gpu_count w j runs,
      λ a m r. highest a m (Runnable-passes o gpu_count w a r),
    )

-- Where a stored job may run on the node, the scheduler picks one.
pub pick_of_Runnable :
    (o : Offer) (gpu_count : ℤ) (w : Farm) (a : Job)
    → In a w.jobs
    → Runnable o gpu_count w a
    → (j : Job) × (pick o gpu_count w ≡ some j)
pick_of_Runnable o gpu_count w a m r = elim (Option-cases (pick o gpu_count w)) [
  | inl nothing ↦ absurd (pick-none o gpu_count w a nothing m (Runnable-passes o gpu_count w a r))
  | inr found ↦ found
]
