-- ===== src/Client/Refines.antt =====
-- What the answer to a report leaves of a client, and that it is made of the steps of a run.
use ava_capture.Base.{
  ℕ, String, ◌≡◌, if◌then◌else◌, false, Option, List, [], ◌∷◌, ◌++◌, In, All, ⊤, ◌==◌, map, select,
  not, contains,
}
use ava_capture.Discover.Report.{JobData}
use ava_capture.Client.{JobInstance, new_instance, terminate, Container, holds}
use ava_capture.Client.Steps.{Run}

-- A run that ends in `c`, in which at least the jobs `s` were taken on.
abbrev pub Extends : List ℕ → List ℕ → Container → Type 0
Extends s a c = (s' : List ℕ) × Run s' a c × ((k : ℕ) → In k s → In k s')

-- The jobs of a reply are new to the client: none of them runs there, and none is named twice.
abbrev pub AreNew : List JobData → List (ℕ × JobInstance) → Type 0
AreNew [] held = ⊤
AreNew (d ∷ ds) held =
    (holds held d.job_id ≡ false)
    × All (λ (e : JobData). (d.job_id == e.job_id) ≡ false) ds
    × AreNew ds held

abbrev pub entry_of : (String → Option String) → JobData → ℕ × JobInstance
entry_of refusal d = (d.job_id, new_instance (refusal d.job_class) d)

-- A running job, with the flag set where it is to be killed.
abbrev pub terminated_if : List ℕ → ℕ × JobInstance → ℕ × JobInstance
terminated_if kills e = if contains kills e.0 then (e.0, terminate e.1) else e

abbrev terminated_at : ℕ → ℕ × JobInstance → ℕ × JobInstance
terminated_at k e = if e.0 == k then (e.0, terminate e.1) else e

-- What a client keeps of an answered report, in one step: the results that the report had are gone,
-- the new jobs run after those that were there, and those that are to be killed have the flag.
abbrev pub answered_with :
    (String → Option String) → List ℕ → List JobData → List ℕ → Container → Container
answered_with refusal keys jobs kills c = record c {
  running_jobs = map (terminated_if kills) (c.running_jobs ++ map (entry_of refusal) jobs);
  finished_jobs = select (λ e. not (contains keys e.0)) c.finished_jobs;
}
