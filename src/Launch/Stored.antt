-- ===== src/Launch/Stored.antt =====
-- What the tables hold of a job that is being launched, and what a PATCH makes of it.
use ava_capture.Base.{
  ℕ, String, ◌==◌, ◌≡◌, refl, ap, subst, ◌∙◌, true, false, not, Option, none, some, List, [], ◌∷◌,
  ◌++◌, map, select, contains→In, contains_text→In, In, ◌↔◌, inl, inr, arith, Bool-cases, ==_refl,
}
use ava_capture.Base.Table.{find, save, find-save}
use ava_capture.Farm.{Farm, Job, Node, Status, created, job_key, save_job}
use ava_capture.JobApi.{set_dependencies, set_tags, set_status, distinct, distinct_text, update}

-- The machine that a job is for, of the name that was asked for.
abbrev pub OnMachine : Option String → Option ℕ → List Node → Type 0
OnMachine none chosen nodes = chosen ≡ none
OnMachine (some name) chosen nodes =
    (n : Node) × In n nodes × (n.machine_name ≡ name) × (chosen ≡ some n.id)

-- The tables hold the job, for the machine of this name, with these dependencies and tags.
pub record Stored (name : Option String) (j : Job) (ds : List ℕ) (ts : List String) (w : Farm)
    : Type 0 where
  pub row : find job_key j.id w.jobs ≡ some j
  pub machine : OnMachine name j.node w.nodes
  pub dependency : (d : ℕ) → In (j.id, d) w.dependencies ↔ In d ds
  pub tag : (t : String) → In (j.id, t) w.job_tags ↔ In t ts

-- What happens between two requests of a launch leaves a job that is `created` as it is.
pub record Respects (others : Farm → Farm) : Type 0 where
  pub at :
      (name : Option String) (j : Job) (ds : List ℕ) (ts : List String) (w : Farm)
      → j.status ≡ created
      → Stored name j ds ts w
      → Stored name j ds ts (others w)

-- The rows of a many-to-many field that has been set.
module _ {B : Type 0} (k : ℕ) where
  paired : (b : B) (xs : List B) → In {A = ℕ × B} (k, b) (map (λ x. (k, x)) xs) ↔ In b xs
  paired b [] = (λ m. m, λ m. m)
  paired b (x ∷ xs) =
      let (there, back) = paired b xs in
      (
        λ m. elim m [ inl e ↦ inl (ap (λ (p : ℕ × B). p.1) e) | inr later ↦ inr (there later) ],
        λ m. elim m [ inl e ↦ inl (ap (λ y. (k, y)) e) | inr later ↦ inr (back later) ],
      )

  pub set_rows-In :
      (b : B) (rows : List (ℕ × B)) (xs : List B)
      → In {A = ℕ × B} (k, b) (select (λ e. not (e.0 == k)) rows ++ map (λ x. (k, x)) xs) ↔ In b xs
  unfolding select
  set_rows-In b [] xs = paired b xs
  set_rows-In b (r ∷ rows) xs = elim (Bool-cases (r.0 == k)) [
    | inl own ↦ rw own (set_rows-In b rows xs)
    | inr other ↦
        let (there, back) = set_rows-In b rows xs in
        rw other (
          λ m. elim m [ inl e ↦ absurd (elsewhere e other) | inr later ↦ there later ],
          λ m. inr (back m),
        )
  ]
    where
      elsewhere : (k, b) ≡ r → (r.0 == k) ≡ false → ⊥
      elsewhere e other =
          let same : k ≡ r.0 = ap (λ (p : ℕ × B). p.0) e in
          let hit : (r.0 == k) ≡ true = subst (λ i. (i == k) ≡ true) same (==_refl k) in cc

In-distinct : (d : ℕ) (xs : List ℕ) → In d (distinct xs) ↔ In d xs
unfolding distinct
In-distinct d [] = (λ m. m, λ m. m)
In-distinct d (x ∷ xs) = ground (arith, In-distinct d xs, contains→In xs x)

In-distinct_text : (t : String) (xs : List String) → In t (distinct_text xs) ↔ In t xs
unfolding distinct_text
In-distinct_text t [] = (λ m. m, λ m. m)
In-distinct_text t (x ∷ xs) = ground (arith, In-distinct_text t xs, contains_text→In xs x)

-- What the field holds after a PATCH.
abbrev pub now : {A : Type 0} → Option (List A) → List A → List A
now none old = old
now (some given) old = given

both : {P Q R : Type 0} → P ↔ Q → Q ↔ R → P ↔ R
both (f, g) (h, k) = (λ p. h (f p), λ r. g (k r))

set_dependencies-In :
    (k : ℕ) (o : Option (List ℕ)) (rows : List (ℕ × ℕ)) (ds : List ℕ)
    → ((d : ℕ) → In (k, d) rows ↔ In d ds)
    → (d : ℕ) → In (k, d) (set_dependencies k o rows) ↔ In d (now o ds)
set_dependencies-In k none rows ds h d = h d
set_dependencies-In k (some given) rows ds h d =
    both (set_rows-In k d rows (distinct given)) (In-distinct d given)

set_tags-In :
    (k : ℕ) (o : Option (List String)) (rows : List (ℕ × String)) (ts : List String)
    → ((t : String) → In (k, t) rows ↔ In t ts)
    → (t : String) → In (k, t) (set_tags k o rows) ↔ In t (now o ts)
set_tags-In k none rows ts h t = h t
set_tags-In k (some given) rows ts h t =
    both (set_rows-In k t rows (distinct_text given)) (In-distinct_text t given)

find-save_self : (j : Job) (jobs : List Job) → find job_key j.id (save job_key j jobs) ≡ some j
find-save_self j jobs = find-save job_key j.id j jobs ∙ rw (==_refl j.id) refl

-- A valid PATCH leaves the job with the given status, dependencies and tags, and with its older
-- ones where none are given.
module _ {name : Option String} {ds : List ℕ} {ts : List String} (j : Job) (w : Farm)
    (stored : Stored name j ds ts w) where
  pub update-Stored :
      (deps : Option (List ℕ)) (tags : Option (List String)) (s : Option Status)
      → Stored name
          (set_status s j)
          (now deps ds)
          (now tags ts)
          (update (record { dependencies_id = deps; tags = tags; status = s }) j w).1
  unfolding update save_job
  update-Stored deps tags none = record {
    row = find-save_self j w.jobs;
    machine = stored.machine;
    dependency = set_dependencies-In j.id deps w.dependencies ds stored.dependency;
    tag = set_tags-In j.id tags w.job_tags ts stored.tag;
  }
  update-Stored deps tags (some s) = record {
    row = find-save_self (record j { status = s }) w.jobs;
    machine = stored.machine;
    dependency = set_dependencies-In j.id deps w.dependencies ds stored.dependency;
    tag = set_tags-In j.id tags w.job_tags ts stored.tag;
  }
