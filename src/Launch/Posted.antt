-- ===== src/Launch/Posted.antt =====
-- The first request of a launch: the machine, the checks, and the new row.
use text.Mathlib.TextEquality.{eq_iff}
use ava_capture.Base.{
  ℕ, String, ◌≡◌, refl, sym, subst, Bool, true, false, Option, none, some, List, [], ◌∷◌, ◌++◌, In,
  inl, inr, arith, ==_refl, select, In-select, In-append_last, str_eq,
}
use ava_capture.Base.Effects.Rules.{Ends}
use ava_capture.Base.Table.{find}
use ava_capture.Farm.{
  Env, Farm, Job, Node, User, Action, Result, job_key, ok, err, ◌>>=◌, create_node, new_node,
  create_job,
}
use ava_capture.JobApi.{
  Rest, Response, get_or_create, to_internal_value, post_checked, create, job_of, parent_in,
  is_valid, distinct_text, post_farm_jobs,
}
use ava_capture.Requests.{new_job}
use ava_capture.Launch.{Call, fields_of, request, require, id_of, post_job}
use ava_capture.Launch.Stored.{OnMachine, Stored}
use ava_capture.Launch.Held.{HeldBack}

-- No row has the next key, or refers to it.
pub record IsFresh (w : Farm) : Type 0 where
  pub job : find job_key w.next_job w.jobs ≡ none
  pub dependency : (d : ℕ) → In (w.next_job, d) w.dependencies → ⊥
  pub tag : (t : String) → In (w.next_job, t) w.job_tags → ⊥

-- The farm but for its machines.
abbrev pub machines_changed : Farm → List Node → ℕ → Farm
machines_changed w ns next = record w { nodes = ns; next_node = next }

-- The machine of the new job is found or made, and nothing else changes.
abbrev pub Placed : Option String → Farm → Result (Option ℕ) × Farm → Type 0
Placed name w (ok chosen, w') =
    (ns : List Node) × (next : ℕ) × (w' ≡ machines_changed w ns next) × OnMachine name chosen ns
Placed name w (err e, w') = w' ≡ w

get_or_create-Placed :
    (env : Env) (name : String) (w : Farm) (l : List Node)
    → ((n : Node) → In n l → In n w.nodes × (str_eq n.machine_name name ≡ true))
    → Placed (some name) w (get_or_create env name l w)
unfolding create_node new_node
get_or_create-Placed env name w [] h = (_, _, refl, (_, In-append_last _ w.nodes, refl, refl))
get_or_create-Placed env name w (n ∷ []) h =
    let (there, same) = h n (inl refl) in
    (w.nodes, w.next_node, refl, (n, there, (eq_iff n.machine_name name).0 same, refl))
get_or_create-Placed env name w (n ∷ m ∷ ns) h = refl

to_internal_value-Placed :
    (env : Env) (name : Option String) (w : Farm) → Placed name w (to_internal_value env name w)
unfolding to_internal_value
to_internal_value-Placed env none w = (w.nodes, w.next_node, refl, refl)
to_internal_value-Placed env (some name) w =
    get_or_create-Placed env name w (select (λ n. str_eq n.machine_name name) w.nodes)
      (λ n. In-select (λ m. str_eq m.machine_name name) n w.nodes)

found_missing : {A : Type 0} {o : Option A} (a : A) → o ≡ none → o ≡ some a → ⊥
found_missing a e f = cc

In-append_nil : {A : Type 0} (a : A) (xs : List A) → In a (xs ++ []) → In a xs
In-append_nil a [] m = m
In-append_nil a (x ∷ xs) m = elim m [ inl e ↦ inl e | inr later ↦ inr (In-append_nil a xs later) ]

find-append_new :
    (k : ℕ) (j : Job) (js : List Job)
    → find job_key k js ≡ none
    → j.id ≡ k
    → find job_key k (js ++ j ∷ []) ≡ some j
unfolding find
find-append_new k j [] h e = rw (e, ==_refl k) refl
find-append_new k j (x ∷ xs) h e = ground (arith, find-append_new k j xs)

module _ (env : Env) (rest : Rest) (user : User) (job_id : Option ℕ) (call : Call) where
  -- The job as the first request stores it.
  abbrev pub made : Farm → Option ℕ → Job
  made w chosen =
      record (job_of user (fields_of job_id call)
        (parent_in w.jobs (fields_of job_id call).parent_id) chosen) { id = w.next_job }

  abbrev pub Posted : Farm → ℕ → Farm → Type 0
  Posted w k w' =
      (k ≡ w.next_job) × (chosen : Option ℕ) × Stored call.node_name (made w chosen) [] [] w'

  post_checked-Ends :
      (w : Farm) (chosen : Option ℕ) (ns : List Node) (next : ℕ) (valid : Bool)
      → IsFresh w
      → OnMachine call.node_name chosen ns
      → Ends (Posted w) (HeldBack w.next_job) (
          (request (post_checked user (fields_of job_id call) chosen valid) >>= λ r.
          require 201 r >>= λ _. id_of r)
            (machines_changed w ns next))
  unfolding create create_job fields_of job_of new_job distinct_text
  post_checked-Ends w chosen ns next true fresh placed = (
    refl,
    chosen,
    record {
      row = find-append_new w.next_job (made w chosen) w.jobs fresh.job refl;
      machine = placed;
      dependency = λ d. (λ m. absurd (fresh.dependency d m), λ m. elim m [ ]);
      tag = λ t.
          (λ m. absurd (fresh.tag t (In-append_nil (w.next_job, t) w.job_tags m)), λ m. elim m [ ]);
    },
  )
  post_checked-Ends w chosen ns next false fresh placed =
      λ j found. absurd (found_missing j fresh.job found)

  -- A first request that succeeds answers with the next key, and the job is stored; one that
  -- fails stores no job.
  pub post_job-Ends :
      (w : Farm)
      → IsFresh w
      → Ends (Posted w) (HeldBack w.next_job) (post_job env rest user job_id call w)
  unfolding post_job post_farm_jobs fields_of
  post_job-Ends w fresh =
      by_place (to_internal_value env call.node_name w)
        (to_internal_value-Placed env call.node_name w)
    where
      then_checked : Option ℕ → Action Response
      then_checked chosen w' =
          post_checked user (fields_of job_id call) chosen
            (is_valid rest (fields_of job_id call) w') w'

      by_place :
          (p : Result (Option ℕ) × Farm)
          → Placed call.node_name w p
          → Ends
              (Posted w)
              (HeldBack w.next_job)
              ((request ((λ _. p) >>= then_checked) >>= λ r. require 201 r >>= λ _. id_of r) w)
      by_place (ok chosen, w') (ns, next, e, placed) =
          subst
            (λ w″.
              Ends (Posted w) (HeldBack w.next_job)
                ((request (then_checked chosen) >>= λ r. require 201 r >>= λ _. id_of r) w″))
            (sym e)
            (post_checked-Ends w chosen ns next
              (is_valid rest (fields_of job_id call) (machines_changed w ns next)) fresh placed)
      by_place (err e, w') same = λ j found. absurd (
          found_missing j fresh.job
            (subst (λ f. find job_key w.next_job f.jobs ≡ some j) same found))
