-- ===== src/ExportTake/Launches.antt =====
-- The jobs that an export launches.
use text.Mathlib.TextEquality.{eq_iff}
use ava_capture.Base.{
  ⊤, ℕ, suc, ◌≤◌, ◌≡◌, refl, sym, ap, subst, ◌∙◌, String, str_eq, if◌then◌else◌, Bool, true, false,
  Option, some, List, [], ◌∷◌, ◌++◌, In, In-append_left, In-append_last, In-select, length, select,
  arith, inl,
}
use ava_capture.Base.Table.{find}
use ava_capture.Farm.{
  Env, Farm, Job, Node, User, Result, ok, pure, ◌>>=◌, >>=-ok, ready, job_key, create_node,
  new_node, create_job,
}
use ava_capture.JobApi.{
  Rest, Response, has_job, get_or_create, to_internal_value, post_farm_jobs, is_valid, create,
  job_of, post_checked, distinct_text, JobFields,
}
use ava_capture.Requests.{new_job}
use ava_capture.Launch.{fields_of, post_job, patch_job, launch_job, as_response, require, id_of}
use ava_capture.Launch.Stored.{OnMachine}
use ava_capture.Launch.Posted.{machines_changed}
use ava_capture.Launch.Existing.{has_job-append}
use ava_capture.CopyFiles.{FileList}
use ava_capture.ExportTake.{DumpsCopy, child_launch_info}

-- The rows of a machine's name.
abbrev pub named : String → List Node → List Node
named name nodes = select (λ n. str_eq n.machine_name name) nodes

-- The launching job is there, and no name has two machines.
pub record CanLaunch (parent : ℕ) (w : Farm) : Type 0 where
  pub parent_there : has_job w.jobs parent ≡ true
  pub one_machine : (name : String) → length (named name w.nodes) ≤ 1

-- The job that copies the files of one machine.
pub record CopiesFor (dumps : DumpsCopy) (root : String) (parent : ℕ) (item : String × FileList)
    (nodes : List Node) (j : Job) : Type 0 where
  pub job_class : j.job_class ≡ "jobs.archive.CopyFiles"
  pub params : j.params ≡ some (dumps item.1 root true)
  pub parent_of : j.parent ≡ some parent
  pub status : j.status ≡ ready
  pub machine : OnMachine (some item.0) j.node nodes

-- One job for each item, in order.
abbrev pub OneEach :
    DumpsCopy
    → (root : String) → (parent : ℕ) → List Node
    → List (String × FileList)
    → List Job
    → Type 0
OneEach dumps root parent nodes [] [] = ⊤
OneEach dumps root parent nodes (i ∷ is) (j ∷ js) =
    CopiesFor dumps root parent i nodes j × OneEach dumps root parent nodes is js
OneEach dumps root parent nodes [] (j ∷ js) = ⊥
OneEach dumps root parent nodes (i ∷ is) [] = ⊥

select-append :
    {A : Type 0} (p : A → Bool) (a : A) (xs : List A)
    → select p (xs ++ a ∷ []) ≡ select p xs ++ (if p a then a ∷ [] else [])
unfolding select
select-append p a [] = refl
select-append p a (x ∷ xs) = ground (arith, select-append p a xs)

length-snoc : {A : Type 0} (xs : List A) (a : A) → length (xs ++ a ∷ []) ≡ suc (length xs)
length-snoc [] a = refl
length-snoc (x ∷ xs) a = ap suc (length-snoc xs a)

append_nothing : {A : Type 0} (xs : List A) → xs ++ [] ≡ xs
append_nothing [] = refl
append_nothing (x ∷ xs) = ap (λ l. x ∷ l) (append_nothing xs)

-- A machine of a new name leaves one machine for each name at most.
one_machine-new :
    (n : Node) (nodes : List Node)
    → ((name : String) → length (named name nodes) ≤ 1)
    → named n.machine_name nodes ≡ []
    → (name : String) → length (named name (nodes ++ n ∷ [])) ≤ 1
one_machine-new n nodes one new name =
    subst (λ l. length l ≤ 1) (sym (select-append (λ m. str_eq m.machine_name name) n nodes))
      (by_name (str_eq n.machine_name name) refl)
  where
    by_name :
        (b : Bool)
        → str_eq n.machine_name name ≡ b
        → length (named name nodes ++ (if b then n ∷ [] else [])) ≤ 1
    by_name true e =
        let none_yet : named name nodes ≡ [] =
          subst (λ s. named s nodes ≡ []) ((eq_iff n.machine_name name).0 e) new in
        subst (λ l. length (l ++ n ∷ []) ≤ 1) (sym none_yet) (omega arith)
    by_name false e = subst (λ l. length l ≤ 1) (sym (append_nothing (named name nodes))) (one name)

OnMachine-grows :
    (name : String) (k : Option ℕ) (old new : List Node)
    → ((n : Node) → In n old → In n new)
    → OnMachine (some name) k old
    → OnMachine (some name) k new
OnMachine-grows name k old new grows (n, there, own, e) = (n, grows n there, own, e)

pub OneEach-grows :
    (dumps : DumpsCopy) (root : String) (parent : ℕ) (old new : List Node)
    → ((n : Node) → In n old → In n new)
    → (is : List (String × FileList)) (js : List Job) → OneEach dumps root parent old is js
    → OneEach dumps root parent new is js
OneEach-grows dumps root parent old new grows [] [] h = tt
OneEach-grows dumps root parent old new grows [] (j ∷ js) h = h
OneEach-grows dumps root parent old new grows (i ∷ is) [] h = h
OneEach-grows dumps root parent old new grows (i ∷ is) (j ∷ js) h = (
  record {
    job_class = h.0.job_class;
    params = h.0.params;
    parent_of = h.0.parent_of;
    status = h.0.status;
    machine = OnMachine-grows i.0 j.node old new grows h.0.machine;
  },
  OneEach-grows dumps root parent old new grows is js h.1,
)

-- The machine of a name is found or made.
placed_machine :
    (env : Env) (name : String) (parent : ℕ) (w : Farm)
    → CanLaunch parent w
    → (l : List Node) → named name w.nodes ≡ l
    → (chosen : Option ℕ) × (ns : List Node) × (next : ℕ) × (get_or_create env name l w
        ≡ (ok chosen, machines_changed w ns next))
      × OnMachine (some name) chosen ns
      × CanLaunch parent (machines_changed w ns next)
      × ((n : Node) → In n w.nodes → In n ns)
unfolding create_node new_node
placed_machine env name parent w can [] e = (
  _,
  _,
  _,
  refl,
  (_, In-append_last _ w.nodes, refl, refl),
  record {
    parent_there = can.parent_there;
    one_machine = one_machine-new _ w.nodes can.one_machine e;
  },
  λ n m. In-append_left n w.nodes (_ ∷ []) m,
)
placed_machine env name parent w can (n ∷ []) e =
    let (there, own) =
      In-select (λ m. str_eq m.machine_name name) n w.nodes
        (subst (λ l. In n l) (sym e) (inl refl)) in
    (
      some n.id,
      w.nodes,
      w.next_node,
      refl,
      (n, there, (eq_iff n.machine_name name).0 own, refl),
      can,
      λ m h. h,
    )
placed_machine env name parent w can (n ∷ m ∷ l) e =
    let two : length (n ∷ m ∷ l) ≤ 1 = subst (λ x. length x ≤ 1) e (can.one_machine name) in
    absurd (omega arith)

module _ (env : Env) (rest : Rest) (user : User) (others : Farm → Farm) (parent : ℕ)
    (dumps : DumpsCopy) (root : String) (accepted : (f : JobFields) → rest.accepts f ≡ true) where
  pub launch_copy :
      (item : String × FileList) (w : Farm)
      → CanLaunch parent w
      → (j : Job) × (w' : Farm) × (launch_job env rest user others
            (some parent)
            (child_launch_info dumps root item)
            w
          ≡ (ok j.id, w'))
        × (w'.jobs ≡ w.jobs ++ j ∷ [])
        × CopiesFor dumps root parent item w'.nodes j
        × CanLaunch parent w'
        × ((n : Node) → In n w.nodes → In n w'.nodes)
  unfolding launch_job post_job patch_job post_farm_jobs fields_of create create_job job_of new_job
      is_valid to_internal_value distinct_text child_launch_info
  launch_copy (name, files) w can =
      let (chosen, ns, next, found, machine, can', grows) =
        placed_machine env name parent w can (named name w.nodes) refl in
      let w1 : Farm = machines_changed w ns next in
      let fields = fields_of (some parent) (child_launch_info dumps root (name, files)) in
      let p = post_checked user fields chosen true w1 in
      let valid : is_valid rest fields w1 ≡ true = rw (accepted fields, can.parent_there) refl in
      (
        record (job_of user fields (find job_key parent w.jobs) chosen) { id = w.next_job },
        p.1,
        ap finish (
            >>=-ok (to_internal_value env (some name))
              (λ k w'. post_checked user fields k (is_valid rest fields w') w') w found
            ∙ ap (λ b. post_checked user fields chosen b w1) valid),
        refl,
        record {
          job_class = refl;
          params = refl;
          parent_of = refl;
          status = refl;
          machine = machine;
        },
        record {
          parent_there = has_job-append parent w.jobs (_ ∷ []) can.parent_there;
          one_machine = can'.one_machine;
        },
        grows,
      )
    where
      finish : Result Response × Farm → Result ℕ × Farm
      finish p =
          (((λ _. as_response p) >>= λ r. require 201 r >>= λ _. id_of r) >>= λ k.
          patch_job others (child_launch_info dumps root (name, files)) k >>= λ _. pure k)
            w
