-- ===== src/Scheduler.antt =====
-- The scheduler inside `post_client_discover` of website-backend/ava/jobs/views.py: two channels,
-- the query for the jobs that a node could run, their order, and the reservation of one job.
pub mod Order
pub mod Picking
pub mod Conditions
pub mod Runnable
use ava_capture.Base.{
  ⊤, ℕ, String, ◌+◌, ◌==◌, ltb, if◌then◌else◌, Bool, true, false, not, ◌&&◌, ◌||◌, Option, none,
  some, List, [], ◌∷◌, ◌++◌, select, count_where, any_of, contains_text, map, foldl,
}
use ava_capture.Base.Int.{ℤ, pos, leb_ℤ}
use ava_capture.Farm.{
  Env, Farm, Job, Node, ready, reserved, running, success, is, Action, pure, raise, type_error,
  gets, when, atomic, except_any, ◌>>=◌, ◌>>◌, refers, save_job, delete_jobs, job_key,
}

-- The classes of light jobs; all others are heavy.
abbrev pub light_job_classes : List String
light_job_classes = "jobs.thumbnails.GenerateThumbnail" ∷ "jobs.test.SpeedTest" ∷ []

pub data Channel : Type 0 where
  light heavy : Channel

-- `filter_q` of the channels
unfoldable pub filter_q : Channel → Job → Bool
filter_q light j = contains_text light_job_classes j.job_class
filter_q heavy j = not (contains_text light_job_classes j.job_class)

-- `nb_running` of a channel: running jobs on the node, not the reserved ones.
unfoldable pub nb_running : Channel → ℕ → List Job → ℕ
nb_running c node jobs =
    count_where (λ j. is running j.status && refers j.node node && filter_q c j) jobs

-- `can_run`, with `max_instances = 1`
unfoldable pub can_run : ℕ → List Job → Channel → Bool
can_run node jobs c = ltb (nb_running c node jobs) 1

-- `list.pop()`: the last element and the rest.
unfoldable pub pop {ℓ} : {A : Type ℓ} → List A → Option (A × List A)
pop [] = none
pop (x ∷ xs) = elim (pop xs) [ none ↦ some (x, []) | some (y, rest) ↦ some (y, x ∷ rest) ]

-- `or_list`: the last test or any of the others; `none` is the IndexError of an empty list.
unfoldable pub or_list : List (Job → Bool) → Option (Job → Bool)
unfolding pop
or_list qs = elim (pop qs) [
  | none ↦ none
  | some (first, others) ↦ some (foldl (λ p q j. p j || q j) first others)
]

-- `excluded_tags`: the tags of any node that this node does not have.
unfoldable pub excluded_tags : List (ℕ × String) → List String → List String
excluded_tags node_tags tags = select (λ t. not (contains_text tags t)) (map (λ e. e.1) node_tags)

-- `exclude(tags__name__in=excluded)`
unfoldable pub is_excluded : List (ℕ × String) → List String → Job → Bool
is_excluded job_tags excluded j = any_of (λ e. e.0 == j.id && contains_text excluded e.1) job_tags

-- What the scheduler knows of a node besides its row.
pub record Offer : Type 0 where
  pub node : Node
  pub available : List String
  pub excluded : List String

abbrev node_fits : Node → Job → Bool
node_fits n j = refers j.node n.id || (n.active && elim j.node [ none ↦ true | some _ ↦ false ])

-- The query for `next_jobs`, before the filters for the GPU and the channels.
unfoldable pub is_candidate : Offer → Farm → Job → Bool
is_candidate o w j =
    is ready j.status
    && leb_ℤ j.req_version o.node.code_version
    && node_fits o.node j
    && contains_text o.available j.job_class
    && not (is_excluded w.job_tags o.excluded j)

-- `order_by('-priority')`: higher first; jobs of one priority keep the order of the table.
unfoldable pub insert_by_priority : Job → List Job → List Job
insert_by_priority j [] = j ∷ []
insert_by_priority j (k ∷ ks) =
    if leb_ℤ k.priority j.priority then j ∷ k ∷ ks else k ∷ insert_by_priority j ks

unfoldable pub order_by_priority : List Job → List Job
unfolding insert_by_priority
order_by_priority [] = []
order_by_priority (j ∷ js) = insert_by_priority j (order_by_priority js)

-- `dependencies.filter(~Q(status='success')).count()`
unfoldable pub unmet_dependencies : Farm → Job → ℕ
unmet_dependencies w j =
    count_where
      (λ d. any_of (λ e. e.0 == j.id && e.1 == d.id) w.dependencies && not (is success d.status))
      w.jobs

-- The loop over `next_jobs`: the first one with all its dependencies met.
unfoldable pub first_ready : Farm → List Job → Option Job
first_ready w [] = none
first_ready w (j ∷ js) = if unmet_dependencies w j == 0 then some j else first_ready w js

abbrev pub gpu_fits : ℤ → Job → Bool
gpu_fits gpu_count j = if leb_ℤ gpu_count (pos 0) then not j.req_gpu else true

-- The queue that the loop walks, for the test of the channels.
abbrev pub queue : Offer → ℤ → Farm → (Job → Bool) → List Job
queue o gpu_count w in_channel =
    select in_channel
      (order_by_priority (select (gpu_fits gpu_count) (select (is_candidate o w) w.jobs)))

-- `if filter_q_list`: with no filter there is no loop.
abbrev pub pick_from : Offer → ℤ → Farm → Option (Job → Bool) → Option Job
pick_from o gpu_count w none = none
pick_from o gpu_count w (some in_channel) = first_ready w (queue o gpu_count w in_channel)

-- The filters of the channels that can run.
abbrev pub free_filters : ℕ → List Job → List (Job → Bool)
free_filters node jobs = map filter_q (select (can_run node jobs) (light ∷ heavy ∷ []))

-- The job that the scheduler takes for a node with `gpu_count` GPUs.
unfoldable pub pick : Offer → ℤ → Farm → Option Job
unfolding or_list
pick o gpu_count w = pick_from o gpu_count w (or_list (free_filters o.node.id w.jobs))

module _ (env : Env) where
  -- The children of the job go, and the job is reserved for the node.
  unfoldable pub reserve : Node → Job → Action ⊤
  reserve n j = do
    children ← gets λ w. map job_key (select (λ c. refers c.parent j.id) w.jobs)
    delete_jobs env children
    save_job (record j {
      status = reserved;
      node = some n.id;
      exception = none;
      start_time = some env.now;
    })

  -- The body of the transaction. `None <= 0` is a TypeError of Python 3; the comparison is made
  -- only where a channel can run.
  unfoldable pub schedule_body : Offer → Action ⊤
  schedule_body o w =
      if any_of (can_run o.node.id w.jobs) (light ∷ heavy ∷ [])
      then elim o.node.gpu_count [
        | none ↦ raise type_error w
        | some gpu_count ↦ elim (pick o gpu_count w) [
          | none ↦ pure tt w
          | some j ↦ reserve o.node j w
        ]
      ]
      else pure tt w

  -- `if not node.req_restart: try: with transaction.atomic(): …`
  unfoldable pub schedule : Offer → Action ⊤
  schedule o = when (not o.node.req_restart) (except_any (atomic (schedule_body o)))
