-- ===== src/Discover/Marked.antt =====
-- The running jobs of a report, and the tags that keep jobs away from a machine.
use mathlib.Core.Option
use mathlib.Core.Option.{some-injective}
use ava_capture.Base.{
  ℕ, String, ◌≡◌, refl, ◌∙◌, ap, if◌then◌else◌, Bool, true, false, not, subst, ◌==◌, ◌&&◌,
  any_of→In, In→any_of, ◌↔◌, Option, none, some, List, [], ◌∷◌, arith, In, inl, inr, In-select,
  select-In, contains_text, In→contains_text, contains_text→In, map, Bool-cases,
}
use ava_capture.Base.Table.{find, find-update_where}
use ava_capture.Farm.{Farm, Job, Status, running, terminating, job_key, update_jobs, for_each_inv}
use ava_capture.Parent.Verdict.{status_of}
use ava_capture.Scheduler.{excluded_tags, is_excluded}
use ava_capture.Discover.{mark_progress, mark_running, takes_progress, starts_running}

-- An update that passes over a row leaves its status.
update_jobs-passed :
    (test : Job → Bool) (change : Job → Job) (k : ℕ) (s : Status) (w : Farm)
    → ((j : Job) → (change j).id ≡ j.id)
    → ((j : Job) → j.status ≡ s → test j ≡ false)
    → status_of k w.jobs ≡ some s
    → status_of k (update_jobs test change w).1.jobs ≡ some s
unfolding update_jobs status_of
update_jobs-passed test change k s w same passed h =
    ap (Option.map read) (find-update_where job_key test change k w.jobs same)
    ∙ go (find job_key k w.jobs) h
  where
    read : Job → Status
    read j = j.status

    go :
        (o : Option Job)
        → Option.map read o ≡ some s
        → Option.map read (Option.map (λ j. if test j then change j else j) o) ≡ some s
    go none e = absurd (cc)
    go (some j) e =
        ap (λ b. some (read (if b then change j else j))) (passed j (some-injective (read j) s e))
        ∙ e

-- A report of running jobs, of either kind, leaves a terminating job terminating.
pub mark_running-terminating :
    (progress : Option (List (ℕ × String))) (keys : Option (List ℕ)) (k : ℕ) (w : Farm)
    → status_of k w.jobs ≡ some terminating
    → status_of k (mark_running progress keys w).1.jobs ≡ some terminating
unfolding mark_running mark_progress
mark_running-terminating (some reports) keys k w h =
    for_each_inv (λ v. status_of k v.jobs ≡ some terminating) mark_progress
      (λ (i, text) v.
        update_jobs-passed (takes_progress i text)
          (λ j. record j { status = running; progress = some text }) k terminating v (λ j. refl)
          (λ j t. rw t (ground arith)))
      reports w h
mark_running-terminating none (some keys) k w h =
    update_jobs-passed (starts_running keys) (λ j. record j { status = running }) k terminating w
      (λ j. refl) (λ j t. rw t (ground arith)) h
mark_running-terminating none none k w h = h

In-tags :
    (t : String) (tags : List (ℕ × String))
    → In t (map (λ (e : ℕ × String). e.1) tags)
    → (n : ℕ) × In (n, t) tags
In-tags t [] m = elim m [ ]
In-tags t (e ∷ tags) m = elim m [
  | inl same ↦ (e.0, inl (ap (λ i. (e.0, i)) same))
  | inr later ↦ let (n, there) = In-tags t tags later in (n, inr there)
]

tags-In :
    (n : ℕ) (t : String) (tags : List (ℕ × String))
    → In (n, t) tags
    → In t (map (λ (e : ℕ × String). e.1) tags)
tags-In n t [] m = elim m [ ]
tags-In n t (e ∷ tags) m = elim m [
  | inl same ↦ inl (ap (λ (i : ℕ × String). i.1) same)
  | inr later ↦ inr (tags-In n t tags later)
]

excluded_tags-In :
    (node_tags : List (ℕ × String)) (tags : List String) (t : String)
    → In t (excluded_tags node_tags tags) ↔ ((n : ℕ) × In (n, t) node_tags) × (In t tags → ⊥)
unfolding excluded_tags
excluded_tags-In node_tags tags t = (
  (λ m.
      let (there, lacks) = In-select (λ i. not (contains_text tags i)) t _ m in
      (In-tags t node_tags there, λ own. let has = In→contains_text tags t own in absurd (cc))),
  λ (carried, lacks).
      select-In (λ i. not (contains_text tags i)) t _ (tags-In carried.0 t node_tags carried.1)
        (elim (Bool-cases (contains_text tags t)) [
          | inl has ↦ absurd (lacks (contains_text→In tags t has))
          | inr hasnt ↦ rw hasnt refl
        ]),
)

-- With the tags that are excluded for a machine, a job is kept away from it exactly where the job has
-- a tag that some machine carries and this one does not.
pub is_excluded-excluded_tags :
    (node_tags job_tags : List (ℕ × String)) (tags : List String) (j : Job)
    → (is_excluded job_tags (excluded_tags node_tags tags) j ≡ true)
      ↔ (t : String) × In (j.id, t) job_tags × ((n : ℕ) × In (n, t) node_tags) × (In t tags → ⊥)
unfolding is_excluded
is_excluded-excluded_tags node_tags job_tags tags j = (
  (λ h.
      let (e, there, hit) = any_of→In keeps_away job_tags h in
      let both : (e.0 ≡ j.id) × (contains_text excluded e.1 ≡ true) = ground arith in
      let (carried, lacks) =
        (excluded_tags-In node_tags tags e.1).0 (contains_text→In excluded e.1 both.1) in
      (e.1, subst (λ k. In (k, e.1) job_tags) both.0 there, carried, lacks)),
  λ (t, there, carried, lacks).
      let known : contains_text excluded t ≡ true =
        In→contains_text excluded t ((excluded_tags-In node_tags tags t).1 (carried, lacks)) in
      In→any_of keeps_away (j.id, t) job_tags there (ground arith),
)
  where
    excluded : List String
    excluded = excluded_tags node_tags tags

    keeps_away : ℕ × String → Bool
    keeps_away e = e.0 == j.id && contains_text excluded e.1
