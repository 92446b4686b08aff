-- ===== src/Requests/Children.antt =====
-- What a restart of the failed children of a job does.
use ava_capture.Base.{
  ⊤, ℕ, ◌≡◌, ltb, refl, ◌∙◌, sym, ap, subst, if◌then◌else◌, Bool, true, false, ◌&&◌, some, List, [],
  ◌∷◌, arith, In, inl, inr, select, length, Bool-cases, ==_refl,
}
use ava_capture.Base.Table.{find, find-In, In-save, In-update_where, update_where}
use ava_capture.Farm.{
  Farm, Job, User, waiting, ready, refers, job_key, Action, Result, ok, pure, for_each, ◌>>◌,
  save_job, update_jobs, has_write_access,
}
use ava_capture.Parent.Verdict.{status_of, status_of-save_job}
use ava_capture.Requests.{
  JobRequest, flag, on_job_restart, is_failed_child, reset_on, restart_failed,
  restart_job_failed_child,
}
use ava_capture.Requests.Rights.{authorized-granted}

-- The loop over the jobs whose output goes changes nothing but the outputs.
pub outputs-cleared :
    (js : List Job) (w : Farm)
    → (o : List (ℕ × List ℕ)) × (for_each (λ j. on_job_restart j.id) js w
        ≡ (ok tt, record w { outputs = o }))
unfolding for_each on_job_restart
outputs-cleared [] w = (w.outputs, refl)
outputs-cleared (j ∷ js) w = outputs-cleared js (on_job_restart j.id w).1

-- The failed children of the job have been made ready, and it waits for them.
abbrev pub ChildrenRestarted : ℕ → Result ℕ × Farm → Type 0
ChildrenRestarted k (r, w') =
    (r ≡ ok 200)
    × (status_of k w'.jobs ≡ some waiting)
    × ((c : Job) → In c w'.jobs → is_failed_child k c ≡ false)

reset_on-ready : (b : Bool) (j : Job) → (reset_on b j).status ≡ ready
reset_on-ready true j = refl
reset_on-ready false j = refl

module _ (same_machine : Bool) (j : Job) (w : Farm) where
  -- The jobs after the update, in which no child of the job is failed.
  updated : List Job
  updated = update_where (is_failed_child j.id) (reset_on same_machine) w.jobs

  none_failed : (c : Job) → In c updated → is_failed_child j.id c ≡ false
  unfolding updated
  none_failed c m =
      let (a, there, e) =
        In-update_where (is_failed_child j.id) (reset_on same_machine) c w.jobs m in
      elim (Bool-cases (is_failed_child j.id a)) [
        | inl hit ↦
            let now : c.status ≡ ready =
              ap (λ (i : Job). i.status)
                (e ∙ ap (λ b. if b then reset_on same_machine a else a) hit)
              ∙ reset_on-ready same_machine a in
            ground arith
        | inr miss ↦
            let same : c ≡ a = e ∙ ap (λ b. if b then reset_on same_machine a else a) miss in
            ap (is_failed_child j.id) same ∙ miss
      ]

  restart_failed-ChildrenRestarted :
      ltb 0 (length (select (is_failed_child j.id) w.jobs)) ≡ true
      → ChildrenRestarted j.id (restart_failed same_machine j w)
  unfolding restart_failed update_jobs save_job updated
  restart_failed-ChildrenRestarted some_failed =
      let (o, cleared) = outputs-cleared (select (is_failed_child j.id) w.jobs) w in
      let after = record w { outputs = o; jobs = updated } in
      rw some_failed (
        subst (λ p. ChildrenRestarted j.id ((((λ _. p) >> rest) >> pure 200) w)) (sym cleared)
          (
            refl,
            status_of-save_job j.id back after ∙ rw (==_refl j.id) refl,
            λ c m. elim (In-save job_key back c updated m) [
              | inl own ↦ ap (is_failed_child j.id) own ∙ rw (waits (refers j.parent j.id)) refl
              | inr older ↦ none_failed c older
            ],
          ))
    where
      back : Job
      back = record j { status = waiting }

      rest : Action ⊤
      rest = update_jobs (is_failed_child j.id) (reset_on same_machine) >> save_job back

      waits : (b : Bool) → (b && false) ≡ false
      waits true = refl
      waits false = refl

-- A restart of the failed children of a job that has some, by a user who may write it: the answer
-- is 200, the job waits, and no child of it is failed any more.
pub restart_job_failed_child-ChildrenRestarted :
    (user : User) (req : JobRequest) (w : Farm) (k : ℕ) (j : Job)
    → req.job_id ≡ some k
    → find job_key k w.jobs ≡ some j
    → has_write_access j user ≡ true
    → ltb 0 (length (select (is_failed_child k) w.jobs)) ≡ true
    → ChildrenRestarted k (restart_job_failed_child user req w)
unfolding restart_job_failed_child
restart_job_failed_child-ChildrenRestarted user req w k j named there granted some_failed =
    rw
      (
        named,
        authorized-granted user k j (restart_failed (flag req.use_same_machine)) w there granted,
      )
      (subst (λ i. ChildrenRestarted i (restart_failed (flag req.use_same_machine) j w)) key
        (restart_failed-ChildrenRestarted (flag req.use_same_machine) j w
          (ap (λ i. ltb 0 (length (select (is_failed_child i) w.jobs))) key ∙ some_failed)))
  where
    key : j.id ≡ k
    key = (find-In job_key k j w.jobs there).1
