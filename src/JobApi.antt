-- ===== src/JobApi.antt =====
-- The REST view of the jobs: `FarmJobsViewSet` of website-backend/ava/jobs/views.py with
-- `FarmJobSerializer` of website-backend/ava/jobs/serializers.py, as the clients use it: POST makes
-- a job, PATCH changes its dependencies, its tags or its status.
--
-- Of the fields that a request may give, the ones are modelled that a client gives to launch a
-- job, with the author and the priority; the others are stored as they come. What the REST
-- framework asks of a plain field (lengths, choices) is the parameter `accepts`, and the rows of
-- the archive are known by their keys. A PATCH does what the framework documents: it stores the
-- fields that are given, and sets the many-to-many fields that are given.
use ava_capture.Base.{
  ⊤, ℕ, String, str_eq, ◌==◌, if◌then◌else◌, Bool, true, false, not, ◌&&◌, Option, none, some, List,
  [], ◌∷◌, ◌++◌, select, contains, contains_text, map,
}
use ava_capture.Base.Int.{ℤ, pos}
use ava_capture.Base.Table.{find}
use ava_capture.Farm.{
  Env, Farm, Job, Node, Status, User, Action, pure, raise, modify, multiple_objects, type_error,
  ◌>>=◌, ◌>>◌, job_key, create_job, save_job, create_node, new_node,
}
use ava_capture.Requests.{new_job}

-- The fields of a POST. A field that is missing and one that is null are told apart only for
-- `dependencies_id`, where the code does.
pub record JobFields : Type 0 where
  pub job_class : String
  pub parent_id : Option ℕ
  pub created_by : Option String
  pub status : Status
  pub params : Option String
  pub req_gpu : Bool
  pub priority : Option ℤ
  pub node_name : Option String
  pub ext_take_id : Option ℕ
  pub ext_scan_assets_id : Option ℕ
  pub ext_tracking_assets_id : Option ℕ
  pub dependencies_id : Option (List ℕ)
  pub tags : List String

-- The fields of a PATCH; `none` is a field that is not given.
pub record JobChanges : Type 0 where
  pub dependencies_id : Option (List ℕ)
  pub tags : Option (List String)
  pub status : Option Status

-- What the REST framework and the archive's tables answer.
pub record Rest : Type 0 where
  pub accepts : JobFields → Bool
  pub has_take : ℕ → Bool
  pub has_scan_asset : ℕ → Bool
  pub has_tracking_asset : ℕ → Bool

-- An answer: the status code, and the job in it.
pub record Response : Type 0 where
  pub status_code : ℕ
  pub job : Option Job

abbrev pub plain : ℕ → Response
plain code = record { status_code = code; job = none }

-- A foreign key that is null, or that `has` a row.
abbrev pub null_or : (ℕ → Bool) → Option ℕ → Bool
null_or has none = true
null_or has (some k) = has k

abbrev pub has_job : List Job → ℕ → Bool
has_job jobs k = elim (find job_key k jobs) [ none ↦ false | some _ ↦ true ]

abbrev pub all_jobs : List Job → List ℕ → Bool
all_jobs jobs [] = true
all_jobs jobs (k ∷ ks) = has_job jobs k && all_jobs jobs ks

-- A list without its repetitions: `set()` of a many-to-many field.
unfoldable pub distinct : List ℕ → List ℕ
distinct [] = []
distinct (x ∷ xs) = if contains xs x then distinct xs else x ∷ distinct xs

unfoldable pub distinct_text : List String → List String
distinct_text [] = []
distinct_text (x ∷ xs) = if contains_text xs x then distinct_text xs else x ∷ distinct_text xs

-- The row that a `parent_id` names.
abbrev pub parent_in : List Job → Option ℕ → Option Job
parent_in jobs none = none
parent_in jobs (some k) = find job_key k jobs

-- `validated_data['priority']`, as `create` leaves it, and the default of the field.
abbrev pub priority_of : Option ℤ → Option Job → ℤ
priority_of (some p) parent = p
priority_of none (some parent) = parent.priority
priority_of none none = pos 50

abbrev pub author_of : Option String → User → String
author_of (some name) user = name
author_of none user = user.username

-- The rows of the tags of a new job; the first of two equal tags is the row.
abbrev pub tag_rows : ℕ → List String → List (ℕ × String)
tag_rows k tags = map (λ t. (k, t)) (distinct_text tags)

-- The job of the validated fields.
unfoldable pub job_of : User → JobFields → Option Job → (chosen : Option ℕ) → Job
unfolding new_job
job_of user fields parent chosen =
    record (new_job fields.job_class (author_of fields.created_by user) fields.params) {
      parent = fields.parent_id;
      status = fields.status;
      req_gpu = fields.req_gpu;
      priority = priority_of fields.priority parent;
      node = chosen;
      ext_take = fields.ext_take_id;
      ext_scan_assets = fields.ext_scan_assets_id;
      ext_tracking_assets = fields.ext_tracking_assets_id;
    }

-- `FarmJob.objects.create(**validated_data)` refuses the list of a many-to-many field.
abbrev pub refuse_many : Option (List ℕ) → Action ⊤
refuse_many none = pure tt
refuse_many (some ks) = raise type_error

abbrev pub add_tags : ℕ → List String → Action ⊤
add_tags k tags = modify λ w. record w { job_tags = w.job_tags ++ tag_rows k tags }

-- `FarmJobSerializer.create`
unfoldable pub create : User → JobFields → (chosen : Option ℕ) → Action Job
create user fields chosen w =
    (do
      refuse_many fields.dependencies_id
      job ← create_job (job_of user fields (parent_in w.jobs fields.parent_id) chosen)
      add_tags job.id fields.tags
      pure job)
      w

-- The checks of the fields but the name of the machine.
unfoldable pub is_valid : Rest → JobFields → Farm → Bool
is_valid rest fields w =
    rest.accepts fields
    && null_or (has_job w.jobs) fields.parent_id
    && null_or rest.has_take fields.ext_take_id
    && null_or rest.has_scan_asset fields.ext_scan_assets_id
    && null_or rest.has_tracking_asset fields.ext_tracking_assets_id

-- The answer to a POST, which is valid or not.
abbrev pub post_checked : User → JobFields → (chosen : Option ℕ) → (valid : Bool) → Action Response
post_checked user fields chosen true = do
  job ← create user fields chosen
  pure (record { status_code = 201; job = some job })
post_checked user fields chosen false = pure (plain 400)

module _ (env : Env) where
  -- `get_or_create(machine_name=name)` on the rows with that name
  abbrev pub get_or_create : String → List Node → Action (Option ℕ)
  get_or_create name [] = do
    chosen ← create_node env (new_node env "0.0.0.0" name)
    pure (some chosen.id)
  get_or_create name (n ∷ []) = pure (some n.id)
  get_or_create name (n ∷ m ∷ ns) = raise multiple_objects

  -- `CreatableSlugRelatedField.to_internal_value`, for a name that is not null
  unfoldable pub to_internal_value : Option String → Action (Option ℕ)
  to_internal_value none w = pure none w
  to_internal_value (some name) w =
      get_or_create name (select (λ n. str_eq n.machine_name name) w.nodes) w

  module _ (rest : Rest) (user : User) where
    -- POST /jobs/farm_jobs/. Every field is checked before the request is refused, so that the
    -- machine of a refused request is made too.
    unfoldable pub post_farm_jobs : JobFields → Action Response
    post_farm_jobs fields = do
      chosen ← to_internal_value fields.node_name
      λ w. post_checked user fields chosen (is_valid rest fields w) w

-- The rows of a many-to-many field of the job `k`, set to a list.
abbrev pub set_dependencies : ℕ → Option (List ℕ) → List (ℕ × ℕ) → List (ℕ × ℕ)
set_dependencies k none rows = rows
set_dependencies k (some ds) rows =
    select (λ e. not (e.0 == k)) rows ++ map (λ d. (k, d)) (distinct ds)

abbrev pub set_tags : ℕ → Option (List String) → List (ℕ × String) → List (ℕ × String)
set_tags k none rows = rows
set_tags k (some ts) rows = select (λ e. not (e.0 == k)) rows ++ tag_rows k ts

abbrev pub set_status : Option Status → Job → Job
set_status none j = j
set_status (some s) j = record j { status = s }

abbrev pub dependencies_exist : List Job → Option (List ℕ) → Bool
dependencies_exist jobs none = true
dependencies_exist jobs (some ds) = all_jobs jobs ds

-- The changes of a PATCH that is valid, on the row it found.
unfoldable pub update : JobChanges → Job → Action ⊤
update changes j = do
  save_job (set_status changes.status j)
  modify λ w. record w {
    dependencies = set_dependencies j.id changes.dependencies_id w.dependencies;
    job_tags = set_tags j.id changes.tags w.job_tags;
  }

-- The answer to a PATCH, which is valid or not.
abbrev pub patch_checked : (valid : Bool) → JobChanges → Job → Action Response
patch_checked true changes j = do
  update changes j
  pure (record { status_code = 200; job = some j })
patch_checked false changes j = pure (plain 400)

abbrev pub patch_found : JobChanges → Option Job → Action Response
patch_found changes none w = pure (plain 404) w
patch_found changes (some j) w =
    patch_checked (dependencies_exist w.jobs changes.dependencies_id) changes j w

-- PATCH /jobs/farm_jobs/k/
unfoldable pub patch_farm_job : ℕ → JobChanges → Action Response
patch_farm_job k changes w = patch_found changes (find job_key k w.jobs) w
