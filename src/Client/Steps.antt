-- ===== src/Client/Steps.antt =====
-- The threads of a job client as steps, and the runs of a client: threads, submissions, requests to
-- terminate, and answered reports, in any order.
use ava_capture.Base.{ℕ, String, ◌≡◌, Option, some, List, [], ◌∷◌, ◌++◌, In, All, true}
use ava_capture.Discover.Report.{JobData}
use ava_capture.Client.{
  JobInstance, Container, hear, publish, leave, holds, submit_job, terminate_job, purge,
}

-- One statement of a thread.
pub data Step : Container → Container → Type 0 where
  hears : (k : ℕ) (text : String) (c : Container) → Step c (hear k text c)
  publishes : (k : ℕ) (j : JobInstance) (c : Container) → Step c (publish k j c)
  leaves : (k : ℕ) (c : Container) → In k c.published → Step c (leave k c)

pub data Steps : Container → Container → Type 0 where
  done : (c : Container) → Steps c c
  step : (b c d : Container) → Step b c → Steps c d → Steps b d

abbrev pub empty_container : Container
empty_container = record { running_jobs = []; finished_jobs = []; published = [] }

-- A run in which the jobs `submitted` were taken on, and the results of the jobs `acknowledged` were
-- in reports that the site has answered.
pub data Run : List ℕ → List ℕ → Container → Type 0 where
  start : Run [] [] empty_container
  thread : (s a : List ℕ) (b c : Container) → Run s a b → Step b c → Run s a c
  submit :
      (s a : List ℕ) (b c : Container) (refusal : String → Option String) (d : JobData)
      → Run s a b
      → submit_job refusal d b ≡ some c
      → Run (d.job_id ∷ s) a c
  kill : (s a : List ℕ) (b : Container) (k : ℕ) → Run s a b → Run s a (terminate_job k b)
  answered :
      (s a : List ℕ) (b : Container) (keys : List ℕ)
      → Run s a b
      → All (λ k. holds b.finished_jobs k ≡ true) keys
      → Run s (keys ++ a) (purge keys b)
