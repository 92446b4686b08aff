-- ===== src/Launch/Launched.antt =====
-- What a launch leaves of the job that was asked for.
use ava_capture.Base.{
  ℕ, String, ◌≡◌, refl, sym, subst, Option, none, some, [], In, ◌↔◌, if◌then◌else◌,
}
use ava_capture.Base.Effects.Rules.{Ends, outcome_bind, outcome_pure, Contract}
use ava_capture.Base.Table.{find}
use ava_capture.Farm.{Env, Farm, Job, User, created, job_key, Result, ok, err, pure, ◌>>=◌}
use ava_capture.JobApi.{Rest, job_of, parent_in, priority_of}
use ava_capture.Requests.{new_job}
use ava_capture.Launch.{Call, delayed_status, fields_of, launch_job, post_job, patch_job}
use ava_capture.Launch.Stored.{OnMachine, Stored, Respects}
use ava_capture.Launch.Held.{HeldBack, patch_job-Contract}
use ava_capture.Launch.Posted.{IsFresh, made, Posted, post_job-Ends}

-- The job of a call, as `w` holds it under `k`, launched from the farm `w₀`.
pub record Launched (user : User) (job_id : Option ℕ) (call : Call) (w0 : Farm) (k : ℕ) (w : Farm)
    : Type 0 where
  pub job : Job
  pub row : find job_key k w.jobs ≡ some job
  pub job_class : job.job_class ≡ call.job_class
  pub params : job.params ≡ some call.params
  pub author : job.created_by ≡ user.username
  pub status : job.status ≡ call.status
  pub parent : job.parent ≡ (if call.as_child then job_id else none)
  pub priority : job.priority ≡ priority_of none (parent_in w0.jobs job.parent)
  pub machine : OnMachine call.node_name job.node w.nodes
  pub dependency : (d : ℕ) → In (k, d) w.dependencies ↔ In d call.dependency_list
  pub tag : (t : String) → In (k, t) w.job_tags ↔ In t call.tags

module _ (env : Env) (rest : Rest) (user : User) (job_id : Option ℕ) (call : Call) where
  pub Stored-Launched :
      (w w' : Farm) (chosen : Option ℕ)
      → (let j = made env rest user job_id call w chosen in
          Stored call.node_name
            (record j { status = call.status })
            call.dependency_list
            call.tags
            w')
      → Launched user job_id call w w.next_job w'
  unfolding job_of fields_of new_job
  Stored-Launched w w' chosen h = record {
    job = record (made env rest user job_id call w chosen) { status = call.status };
    row = h.row;
    job_class = refl;
    params = refl;
    author = refl;
    status = refl;
    parent = refl;
    priority = refl;
    machine = h.machine;
    dependency = h.dependency;
    tag = h.tag;
  }

  pub made-held :
      (w : Farm) (chosen : Option ℕ)
      → (let j = made env rest user job_id call w chosen in
          record j { status = if delayed_status call then created else call.status } ≡ j)
  unfolding job_of fields_of
  made-held w chosen = refl

  module _ (others : Farm → Farm) (respects : Respects others) where
    patched-Ends :
        (w w' : Farm) (chosen : Option ℕ)
        → Stored call.node_name (made env rest user job_id call w chosen) [] [] w'
        → Ends
            (λ k w″. (k ≡ w.next_job) × Launched user job_id call w k w″)
            (HeldBack w.next_job)
            ((patch_job others call w.next_job >>= λ _. pure w.next_job) w')
    patched-Ends w w' chosen h =
        let j = made env rest user job_id call w chosen in
        let o : Contract (Stored call.node_name j [] [])
            (patch_job others call w.next_job >>= λ _. pure w.next_job)
            (λ k w″. (k ≡ w.next_job) × Launched user job_id call w k w″) (HeldBack w.next_job) =
          outcome_bind
            (subst
              (λ i.
                Contract (Stored call.node_name i [] []) (patch_job others call w.next_job)
                  (λ _.
                    Stored call.node_name (record j { status = call.status }) call.dependency_list
                      call.tags)
                  (HeldBack w.next_job))
              (made-held w chosen) (patch_job-Contract others respects call j call.node_name))
            (λ _. outcome_pure w.next_job (λ w″ held. (refl, Stored-Launched w w″ chosen held))) in
        o.at w' h

    -- Whatever else the site does between the requests of a launch, as long as it leaves a job
    -- that is `created` as it is: a launch that returns gives the next key, and under it stands
    -- the job that was asked for, on the named machine, with its parent's priority and exactly
    -- its dependencies and tags. A launch that fails at any of its requests leaves no job under
    -- that key, or one that is still `created`, so that the scheduler offers it to no node.
    pub launch_job-Launched :
        (w : Farm)
        → IsFresh w
        → Ends
            (λ k w'. (k ≡ w.next_job) × Launched user job_id call w k w')
            (HeldBack w.next_job)
            (launch_job env rest user others job_id call w)
    unfolding launch_job
    launch_job-Launched w fresh =
        by_post (post_job env rest user job_id call w)
          (post_job-Ends env rest user job_id call w fresh)
      where
        by_post :
            (p : Result ℕ × Farm)
            → Ends (Posted env rest user job_id call w) (HeldBack w.next_job) p
            → Ends
                (λ k w'. (k ≡ w.next_job) × Launched user job_id call w k w')
                (HeldBack w.next_job)
                (((λ _. p) >>= λ k. patch_job others call k >>= λ _. pure k) w)
        by_post (ok k, w') (e, chosen, h) =
            subst
              (λ i.
                Ends (λ k w″. (k ≡ w.next_job) × Launched user job_id call w k w″)
                  (HeldBack w.next_job) ((patch_job others call i >>= λ _. pure i) w'))
              (sym e) (patched-Ends w w' chosen h)
        by_post (err e, w') h = h
