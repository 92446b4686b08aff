-- ===== src/Requests/Allowed.antt =====
-- Who may restart, delete or kill a job: `FarmJob.has_write_access` and the views that ask it.
use text.Mathlib.TextEquality.{eq_iff}
use ava_capture.Base.{
  ⊤, ℕ, String, ◌≡◌, ◌≢◌, refl, sym, subst, ltb, if◌then◌else◌, Bool, Bool-cases, true, false, some,
  str_eq, ◌⊎◌, inl, inr, arith, length, select,
}
use ava_capture.Base.Table.{find}
use ava_capture.Farm.{
  Env, Farm, Job, User, Action, job_key, waiting, Result, ok, ◌>>◌, pure, has_write_access,
  update_jobs, save_job, delete_jobs,
}
use ava_capture.Requests.{
  JobRequest, flag, restart_job, restart_job_failed_child, delete_job, kill_job, kill, delete,
  restart_failed, is_failed_child, reset_on,
}
use ava_capture.Requests.Rights.{authorized-refused, authorized-granted}
use ava_capture.Requests.Children.{outputs-cleared}

-- The user created the job or is a superuser.
abbrev pub IsOwner : Job → User → Type 0
IsOwner j user = (j.created_by ≡ user.username) ⊎ (user.is_superuser ≡ true)

abbrev pub IsStranger : Job → User → Type 0
IsStranger j user = (j.created_by ≢ user.username) × (user.is_superuser ≡ false)

-- All four requests about a job are answered 403, and nothing changes.
abbrev pub AllRefused : Env → User → JobRequest → Farm → Type 0
AllRefused env user req w =
    (restart_job env user req w ≡ (ok 403, w))
    × (restart_job_failed_child user req w ≡ (ok 403, w))
    × (delete_job env user req w ≡ (ok 403, w))
    × (kill_job user req w ≡ (ok 403, w))

abbrev pub NotForbidden : Result ℕ × Farm → Type 0
NotForbidden p = p.0 ≢ ok 403

-- None of the three requests of which 403 always is a matter of rights is answered so.
abbrev pub NoneRefused : Env → User → JobRequest → Farm → Type 0
NoneRefused env user req w =
    NotForbidden (restart_job_failed_child user req w)
    × NotForbidden (delete_job env user req w)
    × NotForbidden (kill_job user req w)

has_write_access-IsOwner : (j : Job) (user : User) → IsOwner j user → has_write_access j user ≡ true
unfolding has_write_access
has_write_access-IsOwner j user (inl own) =
    let same : str_eq j.created_by user.username ≡ true =
      (eq_iff j.created_by user.username).1 own in
    rw same refl
has_write_access-IsOwner j user (inr super) =
    elim (Bool-cases (str_eq j.created_by user.username)) [
      | inl same ↦ rw same refl
      | inr other ↦ rw (other, super) refl
    ]

has_write_access-IsStranger :
    (j : Job) (user : User) → IsStranger j user → has_write_access j user ≡ false
unfolding has_write_access
has_write_access-IsStranger j user (other, ordinary) =
    elim (Bool-cases (str_eq j.created_by user.username)) [
      | inl same ↦ absurd (other ((eq_iff j.created_by user.username).0 same))
      | inr differs ↦ rw (differs, ordinary) refl
    ]

other_user : (a b : String) → str_eq a b ≡ false → a ≢ b
other_user a b differs same = let hit : str_eq a b ≡ true = (eq_iff a b).1 same in absurd (cc)

rights_cases : (j : Job) (user : User) → IsOwner j user ⊎ IsStranger j user
rights_cases j user = elim (Bool-cases (str_eq j.created_by user.username)) [
  | inl same ↦ inl (inl ((eq_iff j.created_by user.username).0 same))
  | inr differs ↦ elim (Bool-cases user.is_superuser) [
    | inl super ↦ inl (inr super)
    | inr ordinary ↦ inr (other_user j.created_by user.username differs, ordinary)
  ]
]

answered_200 : (w : Farm) → NotForbidden (ok 200, w)
answered_200 w h = ground arith

is_200_or_404 : (b : Bool) (w : Farm) → NotForbidden (ok (if b then 200 else 404), w)
is_200_or_404 true w h = ground arith
is_200_or_404 false w h = ground arith

kill_allowed : (j : Job) (w : Farm) → NotForbidden (kill j w)
unfolding kill update_jobs
kill_allowed j w = is_200_or_404 _ w

delete_allowed : (env : Env) (j : Job) (w : Farm) → NotForbidden (delete env j w)
unfolding delete delete_jobs
delete_allowed env j w = is_200_or_404 _ w

restart_failed_allowed :
    (same_machine : Bool) (j : Job) (w : Farm) → NotForbidden (restart_failed same_machine j w)
unfolding restart_failed update_jobs save_job
restart_failed_allowed same_machine j w =
    let (o, cleared) = outputs-cleared (select (is_failed_child j.id) w.jobs) w in
    elim (Bool-cases (ltb 0 (length (select (is_failed_child j.id) w.jobs)))) [
      | inl some_failed ↦ rw some_failed (
          subst (λ (p : Result ⊤ × Farm). NotForbidden ((((λ _. p) >> rest) >> pure 200) w))
            (sym cleared) (answered_200 w))
      | inr none_failed ↦ rw none_failed (answered_200 w)
    ]
  where
    rest : Action ⊤
    rest =
        update_jobs (is_failed_child j.id) (reset_on same_machine)
        >> save_job (record j { status = waiting })

module _ (env : Env) (user : User) (req : JobRequest) (w : Farm) (k : ℕ)
    (named : req.job_id ≡ some k) (j : Job) (there : find job_key k w.jobs ≡ some j) where
  refused : IsStranger j user → AllRefused env user req w
  unfolding restart_job restart_job_failed_child delete_job kill_job
  refused stranger =
      let forbidden = has_write_access-IsStranger j user stranger in
      (
        rw named (authorized-refused user k j _ w there forbidden),
        rw named (authorized-refused user k j _ w there forbidden),
        rw named (authorized-refused user k j _ w there forbidden),
        rw named (authorized-refused user k j _ w there forbidden),
      )

  allowed : IsOwner j user → NoneRefused env user req w
  unfolding restart_job_failed_child delete_job kill_job
  allowed owner =
      let granted = has_write_access-IsOwner j user owner in
      (
        rw
            (
              named,
              authorized-granted user k j (restart_failed (flag req.use_same_machine)) w there
                  granted,
            )
            (restart_failed_allowed (flag req.use_same_machine) j w),
        rw (named, authorized-granted user k j (delete env) w there granted)
            (delete_allowed env j w),
        rw (named, authorized-granted user k j kill w there granted) (kill_allowed j w),
      )

  -- For a request about a stored job, either the user created the job or is a superuser, and then
  -- the requests to restart its failed children, to delete it and to kill it are not answered 403;
  -- or the user did not and is none, and then these and the request to restart the job are answered
  -- 403 and change nothing.
  pub requests_by_rights :
      IsOwner j user × NoneRefused env user req w ⊎ IsStranger j user × AllRefused env user req w
  requests_by_rights = elim (rights_cases j user) [
    | inl owner ↦ inl (owner, allowed owner)
    | inr stranger ↦ inr (stranger, refused stranger)
  ]
