-- ===== src/Requests/Restart.antt =====
-- What a restart of a job in place does, and where it is refused.
use ava_capture.Base.{
  ℕ, ◌≡◌, ◌==◌, ltb, refl, ◌∙◌, sym, ap, subst, Bool, true, false, not, inl, inr, some, List, [],
  ◌∷◌, arith, In, In-select, select-In, select, contains, In→contains, map, count_where,
  count_where_pos, ==_refl,
}
use ava_capture.Base.Table.{find, find-In, In-save}
use ava_capture.Farm.{
  Env, Farm, Job, User, ready, refers, job_key, Result, ok, delete_jobs, save_job, has_write_access,
}
use ava_capture.Parent.Verdict.{status_of, status_of-save_job}
use ava_capture.Requests.{
  JobRequest, flag, is_busy_child, child_keys, on_job_restart, reset_on, restart_in_place, restart,
  restart_job,
}
use ava_capture.Requests.Rights.{authorized-granted}

-- Django's `delete()` removes at least the rows that it is called on.
abbrev pub DeletesGiven : Env → Type 0
DeletesGiven env =
    (jobs : List Job) (keys : List ℕ) (k : ℕ) → In k keys → In k (env.collect jobs keys)

In-map : (j : Job) (jobs : List Job) → In j jobs → In j.id (map job_key jobs)
In-map j [] m = elim m [ ]
In-map j (x ∷ xs) m = elim m [ inl e ↦ inl (ap job_key e) | inr later ↦ inr (In-map j xs later) ]

-- A job that has been restarted: it is ready, nothing else hangs on it, and its output is gone.
abbrev pub Restarted : ℕ → Result ℕ × Farm → Type 0
Restarted k (r, w') =
    (r ≡ ok 200)
    × (status_of k w'.jobs ≡ some ready)
    × ((c : Job) → In c w'.jobs → refers c.parent k ≡ true → c.id ≡ k)
    × ((e : ℕ × List ℕ) → In e w'.outputs → (e.0 == k) ≡ false)

reset-kept : (b : Bool) (j : Job) → ((reset_on b j).id ≡ j.id) × ((reset_on b j).status ≡ ready)
reset-kept true j = (refl, refl)
reset-kept false j = (refl, refl)

module _ (env : Env) (same_machine : Bool) (w : Farm) (j : Job) where
  restart_in_place-busy :
      (c : Job)
      → In c w.jobs
      → is_busy_child j.id c ≡ true
      → restart_in_place env same_machine j w ≡ (ok 403, w)
  unfolding restart_in_place
  restart_in_place-busy c m busy =
      let some_busy = count_where_pos (is_busy_child j.id) w.jobs c m busy in
      let test : ltb 0 (count_where (is_busy_child j.id) w.jobs) ≡ true = ground arith in
      rw test refl

  restart_in_place-Restarted :
      DeletesGiven env
      → count_where (is_busy_child j.id) w.jobs ≡ 0
      → Restarted j.id (restart_in_place env same_machine j w)
  unfolding restart_in_place delete_jobs on_job_restart save_job
  restart_in_place-Restarted deletes idle = rw idle (
    refl,
    status_of-save_job j.id fresh cleared ∙ rw same (ap some (reset-kept same_machine j).1),
    (λ c m child. elim (In-save job_key fresh c cleared.jobs m) [
      | inl own ↦ ap job_key own ∙ (reset-kept same_machine j).0
      | inr older ↦
          let (was, kept) = In-select keep c w.jobs older in
          let doomed = In→contains (env.collect w.jobs (child_keys j w)) c.id (
            deletes w.jobs (child_keys j w) c.id
              (In-map c _ (select-In (λ i. refers i.parent j.id) c w.jobs was child))) in
          absurd (cc)
    ]),
    λ e m. let (_, kept) = In-select (λ i. not (i.0 == j.id)) e w.outputs m in ground arith,
  )
    where
      fresh : Job
      fresh = reset_on same_machine j

      keep : Job → Bool
      keep i = not (contains (env.collect w.jobs (child_keys j w)) i.id)

      cleared : Farm
      cleared = record w { jobs = select keep w.jobs }

      same : (fresh.id == j.id) ≡ true
      same = ap (λ k. k == j.id) (reset-kept same_machine j).0 ∙ ==_refl j.id

module _ (env : Env) (user : User) (req : JobRequest) (w : Farm) (k : ℕ) (j : Job) where
  restart_job-in_place :
      req.job_id ≡ some k
      → flag req.clone_job ≡ false
      → find job_key k w.jobs ≡ some j
      → has_write_access j user ≡ true
      → restart_job env user req w ≡ restart_in_place env (flag req.use_same_machine) j w
  unfolding restart_job restart
  restart_job-in_place named in_place there granted =
      rw (named, authorized-granted user k j (restart env user req) w there granted, in_place) refl

-- A restart in place, by a user who may write the job, with no child that runs or waits: the answer
-- is 200, the job is ready, no other job has it for its parent any more, and its output is gone.
-- Django's `delete()` is taken to remove the rows that it is called on.
pub restart_job-Restarted :
    (env : Env) (user : User) (req : JobRequest) (w : Farm) (k : ℕ) (j : Job)
    → DeletesGiven env
    → req.job_id ≡ some k
    → flag req.clone_job ≡ false
    → find job_key k w.jobs ≡ some j
    → has_write_access j user ≡ true
    → count_where (is_busy_child k) w.jobs ≡ 0
    → Restarted k (restart_job env user req w)
restart_job-Restarted env user req w k j deletes named in_place there granted idle =
    subst (λ i. Restarted i (restart_job env user req w)) key
      (subst (Restarted j.id)
        (sym (restart_job-in_place env user req w k j named in_place there granted))
        (restart_in_place-Restarted env (flag req.use_same_machine) w j deletes
          (ap (λ i. count_where (is_busy_child i) w.jobs) key ∙ idle)))
  where
    key : j.id ≡ k
    key = (find-In job_key k j w.jobs there).1

-- A job with a child that runs or waits is not restarted in place: 403, and nothing changes.
pub restart_job-busy :
    (env : Env) (user : User) (req : JobRequest) (w : Farm) (k : ℕ) (j c : Job)
    → req.job_id ≡ some k
    → flag req.clone_job ≡ false
    → find job_key k w.jobs ≡ some j
    → has_write_access j user ≡ true
    → In c w.jobs
    → is_busy_child k c ≡ true
    → restart_job env user req w ≡ (ok 403, w)
restart_job-busy env user req w k j c named in_place there granted m busy =
    restart_job-in_place env user req w k j named in_place there granted
    ∙ restart_in_place-busy env (flag req.use_same_machine) w j c m
        (subst (λ i. is_busy_child i c ≡ true) (sym (find-In job_key k j w.jobs there).1) busy)
