-- ===== src/Requests/Rights.antt =====
-- The check that the requests about a job begin with.
use ava_capture.Base.{ℕ, ◌≡◌, refl, ◌∙◌, if◌then◌else◌, true, false, not, some}
use ava_capture.Base.Table.{find}
use ava_capture.Farm.{
  Farm, Job, User, job_key, ok, get_job, get_job-found, >>=-ok, pure, has_write_access,
}
use ava_capture.Requests.{Answer, authorized}

pub authorized-refused :
    (user : User) (k : ℕ) (j : Job) (view : Job → Answer) (w : Farm)
    → find job_key k w.jobs ≡ some j
    → has_write_access j user ≡ false
    → authorized user (some k) view w ≡ (ok 403, w)
authorized-refused user k j view w there forbidden =
    >>=-ok (get_job k) (λ i. if not (has_write_access i user) then pure 403 else view i) w
      (get_job-found k j w there)
    ∙ rw forbidden refl

-- For a user who may write the stored job, a request is the work behind the check.
pub authorized-granted :
    (user : User) (k : ℕ) (j : Job) (view : Job → Answer) (w : Farm)
    → find job_key k w.jobs ≡ some j
    → has_write_access j user ≡ true
    → authorized user (some k) view w ≡ view j w
authorized-granted user k j view w there granted =
    >>=-ok (get_job k) (λ i. if not (has_write_access i user) then pure 403 else view i) w
      (get_job-found k j w there)
    ∙ rw granted refl
