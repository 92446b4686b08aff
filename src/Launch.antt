-- ===== src/Launch.antt =====
-- How a running job launches others: `BaseJob.launch_job` and `BaseJob.yieldToChildren` of
-- job_client/jobs/base.py, with the requests that they make of the site.
--
-- Each request is answered as a whole. What the site does for everyone else between two requests
-- of a launch is the parameter `others`.
pub mod Stored
pub mod Chain
pub mod Held
pub mod Posted
pub mod Launched
pub mod Existing
pub mod Returns
use ava_capture.Base.{
  ⊤, ℕ, String, ◌==◌, if◌then◌else◌, Bool, true, false, not, ◌||◌, Option, none, some, List, [],
  ◌∷◌,
}
use ava_capture.Farm.{
  Env, Farm, Status, User, created, ready, Action, Result, ok, err, pure, raise, modify, when,
  bare_exception, yield_to_children, type_error, or_raise, ◌>>=◌, ◌>>◌, for_each,
}
use ava_capture.JobApi.{
  JobFields, JobChanges, Rest, Response, plain, post_farm_jobs, patch_farm_job,
}

-- The arguments of `launch_job`.
pub record Call : Type 0 where
  pub job_class : String
  pub node_name : Option String
  pub params : String
  pub req_gpu : Bool
  pub ext_take_id : Option ℕ
  pub ext_scan_assets_id : Option ℕ
  pub ext_tracking_assets_id : Option ℕ
  pub as_child : Bool
  pub dependency_list : List ℕ
  pub status : Status
  pub tags : List String

-- A call that gives a class alone.
abbrev pub call_of : String → Call
call_of job_class = record {
  job_class = job_class;
  node_name = none;
  params = "";
  req_gpu = false;
  ext_take_id = none;
  ext_scan_assets_id = none;
  ext_tracking_assets_id = none;
  as_child = true;
  dependency_list = [];
  status = ready;
  tags = [];
}

-- Python's truth of a list.
abbrev pub filled {ℓ} : {A : Type ℓ} → List A → Bool
filled [] = false
filled (x ∷ xs) = true

abbrev pub delayed_status : Call → Bool
delayed_status call = filled call.dependency_list || filled call.tags

-- The body of the first request; `self.job_id` is `none` outside a job.
unfoldable pub fields_of : (job_id : Option ℕ) → Call → JobFields
fields_of job_id call = record {
  job_class = call.job_class;
  parent_id = if call.as_child then job_id else none;
  created_by = none;
  status = if delayed_status call then created else call.status;
  params = some call.params;
  req_gpu = call.req_gpu;
  priority = none;
  node_name = call.node_name;
  ext_take_id = call.ext_take_id;
  ext_scan_assets_id = call.ext_scan_assets_id;
  ext_tracking_assets_id = call.ext_tracking_assets_id;
  dependencies_id = none;
  tags = [];
}

abbrev pub no_changes : JobChanges
no_changes = record { dependencies_id = none; tags = none; status = none }

-- An exception of a view is answered by 500.
abbrev pub as_response : Result Response × Farm → Result Response × Farm
as_response (ok r, w) = (ok r, w)
as_response (err e, w) = (ok (plain 500), w)

abbrev pub request : Action Response → Action Response
request view w = as_response (view w)

-- `if r.status_code != code: raise Exception(…)`
abbrev pub require : (code : ℕ) → Response → Action ⊤
require code r = if r.status_code == code then pure tt else raise bare_exception

-- `int(json.loads(r.content)['id'])`
abbrev pub id_of : Response → Action ℕ
id_of r = elim r.job [ none ↦ raise type_error | some j ↦ pure j.id ]

module _ (others : Farm → Farm) where
  -- A later request of a launch, for the job `k`.
  abbrev pub server_patch : ℕ → JobChanges → Action ⊤
  server_patch k changes = do modify others; r ← request (patch_farm_job k changes); require 200 r

  -- The requests that follow.
  unfoldable pub patch_job : Call → ℕ → Action ⊤
  patch_job call k = do
    (if filled call.dependency_list
        then server_patch k (record no_changes { dependencies_id = some call.dependency_list })
        else pure tt)
    (if filled call.tags
        then server_patch k (record no_changes { tags = some call.tags })
        else pure tt)
    (if delayed_status call
        then server_patch k (record no_changes { status = some call.status })
        else pure tt)

module _ (env : Env) (rest : Rest) (user : User) (job_id : Option ℕ) where
  -- The first request: the key of the new job.
  unfoldable pub post_job : Call → Action ℕ
  post_job call = do
    r ← request (post_farm_jobs env rest user (fields_of job_id call))
    require 201 r
    id_of r

module _ (env : Env) (rest : Rest) (user : User) (others : Farm → Farm) (job_id : Option ℕ) where
  -- `launch_job`
  unfoldable pub launch_job : Call → Action ℕ
  launch_job call = do k ← post_job env rest user job_id call; patch_job others call k; pure k

  -- `yieldToChildren`, of a list of calls. It never returns: the list that the exception carries
  -- has been emptied.
  unfoldable pub yield_to_children_of : List Call → Action ⊤
  yield_to_children_of children_list =
      if not (filled children_list) then raise bare_exception else (do
        for_each (λ call. launch_job call >>= λ _. pure tt) children_list
        raise yield_to_children)
