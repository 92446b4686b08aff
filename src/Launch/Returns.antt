-- ===== src/Launch/Returns.antt =====
-- That a launch returns, where the site accepts what it asks.
use ava_capture.Base.{
  ℕ, String, ◌≤◌, ◌≡◌, refl, sym, subst, Bool, true, false, Option, none, some, List, [], ◌∷◌, ◌++◌,
  arith, length, select, str_eq,
}
use ava_capture.Base.Effects.Rules.{Ends, Contract, outcome_bind, outcome_pure}
use ava_capture.Farm.{
  Env, Farm, Node, User, Action, Result, create_job, ok, err, pure, ◌>>=◌, create_node, new_node,
}
use ava_capture.JobApi.{
  Rest, Response, is_valid, get_or_create, to_internal_value, post_checked, create, post_farm_jobs,
}
use ava_capture.Launch.{Call, fields_of, request, require, id_of, patch_job, post_job, launch_job}
use ava_capture.Launch.Stored.{Respects}
use ava_capture.Launch.Chain.{Kept, with_status, patch_job-Kept}
use ava_capture.Launch.Posted.{IsFresh, made, Posted, post_job-Ends}
use ava_capture.Launch.Held.{HeldBack}
use ava_capture.Launch.Launched.{Launched, Stored-Launched, made-held}
use ava_capture.Launch.Existing.{
  KeepsJobs, Acceptable, HasAll, all_jobs_mono, has_job-append, server_patch-Kept,
}

-- The first request, where the site accepts it.
module _ (env : Env) (rest : Rest) (user : User) (job_id : Option ℕ) (call : Call) where
  post_checked-HasAll :
      (w : Farm) (chosen : Option ℕ)
      → HasAll call w
      → (valid : Bool) → valid ≡ true
      → Ends
          (λ _. HasAll call)
          (λ _. ⊥)
          ((request (post_checked user (fields_of job_id call) chosen valid) >>= λ r.
              require 201 r >>= λ _. id_of r)
            w)
  unfolding create create_job fields_of
  post_checked-HasAll w chosen x true e =
      all_jobs_mono w.jobs (w.jobs ++ _ ∷ []) (λ d. has_job-append d w.jobs (_ ∷ []))
        call.dependency_list x
  post_checked-HasAll w chosen x false e = absurd (cc)

  get_or_create-HasAll :
      (name : String) (w : Farm)
      → HasAll call w
      → is_valid rest (fields_of job_id call) w ≡ true
      → (l : List Node) → length l ≤ 1
      → Ends
          (λ _ w'. HasAll call w' × (is_valid rest (fields_of job_id call) w' ≡ true))
          (λ _. ⊥)
          (get_or_create env name l w)
  unfolding create_node new_node is_valid
  get_or_create-HasAll name w x v [] h = (x, v)
  get_or_create-HasAll name w x v (n ∷ []) h = (x, v)
  get_or_create-HasAll name w x v (n ∷ m ∷ l) h = absurd (omega arith)

  to_internal_value-HasAll :
      (o : Option String) (w : Farm)
      → HasAll call w
      → is_valid rest (fields_of job_id call) w ≡ true
      → ((name : String)
          → o ≡ some name
          → length (select (λ n. str_eq n.machine_name name) w.nodes) ≤ 1)
      → Ends
          (λ _ w'. HasAll call w' × (is_valid rest (fields_of job_id call) w' ≡ true))
          (λ _. ⊥)
          (to_internal_value env o w)
  unfolding to_internal_value
  to_internal_value-HasAll none w x v h = (x, v)
  to_internal_value-HasAll (some name) w x v h =
      get_or_create-HasAll name w x v (select (λ n. str_eq n.machine_name name) w.nodes)
        (h name refl)

  post_job-HasAll :
      (w : Farm)
      → Acceptable rest job_id call w
      → Ends (λ _. HasAll call) (λ _. ⊥) (post_job env rest user job_id call w)
  unfolding post_job post_farm_jobs fields_of
  post_job-HasAll w a =
      by_place (to_internal_value env call.node_name w)
        (to_internal_value-HasAll call.node_name w a.dependencies a.valid a.machine)
    where
      then_checked : Option ℕ → Action Response
      then_checked chosen w' =
          post_checked user (fields_of job_id call) chosen
            (is_valid rest (fields_of job_id call) w') w'

      by_place :
          (p : Result (Option ℕ) × Farm)
          → Ends
              (λ _ w'. HasAll call w' × (is_valid rest (fields_of job_id call) w' ≡ true))
              (λ _. ⊥)
              p
          → Ends
              (λ _. HasAll call)
              (λ _. ⊥)
              ((request ((λ _. p) >>= then_checked) >>= λ r. require 201 r >>= λ _. id_of r) w)
      by_place (ok chosen, w') (x, v) =
          post_checked-HasAll w' chosen x (is_valid rest (fields_of job_id call) w') v
      by_place (err e, w') h = absurd h

  module _ (others : Farm → Farm) (respects : Respects others) (keeps : KeepsJobs others) where
    -- The launch has returned, with the job that was asked for.
    abbrev pub Done : Farm → ℕ → Farm → Type 0
    Done w k w' = (k ≡ w.next_job) × Launched user job_id call w k w'

    patched-Done :
        (w w' : Farm) (chosen : Option ℕ)
        → Kept (HasAll call) call.node_name (made env rest user job_id call w chosen) [] [] w'
        → Ends (Done w) (λ _. ⊥) ((patch_job others call w.next_job >>= λ _. pure w.next_job) w')
    patched-Done w w' chosen h =
        let j = made env rest user job_id call w chosen in
        let o : Contract (Kept (HasAll call) call.node_name j [] [])
            (patch_job others call w.next_job >>= λ _. pure w.next_job) (Done w) (λ _. ⊥) =
          outcome_bind
            (subst
              (λ i.
                Contract (Kept (HasAll call) call.node_name i [] [])
                  (patch_job others call w.next_job)
                  (λ _.
                    Kept (HasAll call) call.node_name (record j { status = call.status })
                      call.dependency_list call.tags)
                  (λ _. ⊥))
              (made-held env rest user job_id call w chosen)
              (patch_job-Kept others (HasAll call) (λ _. ⊥) call j call.node_name
                (server_patch-Kept others respects keeps call call.node_name
                  (with_status call j true) refl)))
            (λ _.
              outcome_pure w.next_job (λ w″ held.
                (refl, Stored-Launched env rest user job_id call w w″ chosen held.0))) in
        o.at w' h

    -- A launch that the site accepts, whose machine has one row at most and whose dependencies
    -- exist, returns, with the job that was asked for, whatever else the site does between its
    -- requests, as long as that leaves `created` jobs as they are and deletes no job.
    pub launch_job_returns :
        (w : Farm)
        → IsFresh w
        → Acceptable rest job_id call w
        → (k : ℕ) × (w' : Farm) × (launch_job env rest user others job_id call w ≡ (ok k, w'))
          × Launched user job_id call w k w'
    unfolding launch_job
    launch_job_returns w fresh a =
        by_post (post_job env rest user job_id call w)
          (post_job-Ends env rest user job_id call w fresh) (post_job-HasAll w a)
      where
        returned :
            (p : Result ℕ × Farm)
            → Ends (Done w) (λ _. ⊥) p
            → (k : ℕ) × (w' : Farm) × (p ≡ (ok k, w')) × Launched user job_id call w k w'
        returned (ok k, w') (e, l) = (k, w', refl, l)
        returned (err e, w') h = absurd h

        by_post :
            (p : Result ℕ × Farm)
            → Ends (Posted env rest user job_id call w) (HeldBack w.next_job) p
            → Ends (λ _. HasAll call) (λ _. ⊥) p
            → (k : ℕ) × (w' : Farm) × (((λ _. p) >>= λ k. patch_job others call k >>= λ _. pure k) w
                ≡ (ok k, w'))
              × Launched user job_id call w k w'
        by_post (ok k, w') (e, chosen, h) x =
            returned ((patch_job others call k >>= λ _. pure k) w') (
              subst (λ i. Ends (Done w) (λ _. ⊥) ((patch_job others call i >>= λ _. pure i) w'))
                (sym e) (patched-Done w w' chosen (h, x)))
        by_post (err e, w') h x = absurd x
