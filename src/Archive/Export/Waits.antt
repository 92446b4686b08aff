-- ===== src/Archive/Export/Waits.antt =====
-- The dependent jobs of an export, and the scheduler.
use ava_capture.Base.{
  In-append_left, In-append_last, ℕ, ◌<◌, ◌+◌, ◌==◌, ◌≡◌, refl, true, false, not, ◌&&◌, List, [],
  ◌∷◌, ◌++◌, In, any_of, In→any_of, count_where_pos, arith, ==_refl,
}
use ava_capture.Base.Table.{save, save-In_self}
use ava_capture.Farm.{Farm, Job, is, success, ready, job_key, create_job, save_job, ok}
use ava_capture.Scheduler.{unmet_dependencies}
use ava_capture.Archive.Export.{create_dependent}

-- A save leaves the rows with other keys.
save-In_other :
    (j k : Job) (js : List Job) → In k js → (k.id == j.id) ≡ false → In k (save job_key j js)
unfolding save
save-In_other j k [] m other = elim m [ ]
save-In_other j k (x ∷ xs) m other = ground (arith, save-In_other j k xs)

-- A job that is made to depend on a stored one that has not succeeded is stored, ready, and has a
-- dependency that is not met, so that the scheduler does not pick it.
pub create_dependent-Waits :
    (job dependency : Job) (f : Farm)
    → In dependency f.jobs
    → is success dependency.status ≡ false
    → (dependency.id == f.next_job) ≡ false
    → (f' : Farm) × (create_dependent job dependency.id f ≡ (ok tt, f'))
      × In (record job { id = f.next_job; status = ready }) f'.jobs
      × (0 < unmet_dependencies f' (record job { id = f.next_job; status = ready }))
unfolding create_dependent create_job save_job unmet_dependencies
create_dependent-Waits job dependency f there unmet old =
    let done = record job { id = f.next_job; status = ready } in
    let jobs = save job_key done (f.jobs ++ record job { id = f.next_job } ∷ []) in
    let edges = f.dependencies ++ (f.next_job, dependency.id) ∷ [] in
    let stays : In dependency jobs =
      save-In_other done dependency (f.jobs ++ record job { id = f.next_job } ∷ [])
        (In-append_left dependency f.jobs _ there) old in
    let edge : any_of (λ (e : ℕ × ℕ). e.0 == f.next_job && e.1 == dependency.id) edges ≡ true =
      In→any_of (λ (e : ℕ × ℕ). e.0 == f.next_job && e.1 == dependency.id)
        (f.next_job, dependency.id) edges
        (In-append_last (f.next_job, dependency.id) f.dependencies)
        (rw (==_refl f.next_job, ==_refl dependency.id) refl) in
    (
      record f { jobs = jobs; next_job = f.next_job + 1; dependencies = edges },
      refl,
      save-In_self job_key done (f.jobs ++ record job { id = f.next_job } ∷ []),
      count_where_pos
          (λ (d : Job).
            any_of (λ (e : ℕ × ℕ). e.0 == f.next_job && e.1 == d.id) edges
            && not (is success d.status))
          jobs dependency stays (rw (edge, unmet) refl),
    )
