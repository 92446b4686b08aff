-- ===== src/Archive/Dependency.antt =====
-- `AddDependency` of website-backend/ava/archive/models.py: which jobs an asset allows, and the reason
-- why not.
use ava_capture.Base.{
  String, if◌then◌else◌, Bool, true, false, not, ◌&&◌, ◌||◌, List, [], ◌∷◌, ◌++◌, any_of,
  contains_text,
}
use ava_capture.Farm.{Job, is, success, ready, running, waiting}

-- `AddDependency.Target`
pub record Target : Type 0 where
  pub label : String
  pub job_class : String
  pub tags : List String
  pub options : List String

pub record Dependency : Type 0 where
  pub allow : Bool
  pub reason : String
  pub targets : List Target
  pub done : Bool

-- `zip(labels, classes)`
unfoldable pub zip_targets : (labels classes tags options : List String) → List Target
zip_targets (l ∷ ls) (c ∷ cs) tags options =
    record { label = l; job_class = c; tags = tags; options = options }
    ∷ zip_targets ls cs tags options
zip_targets _ _ tags options = []

abbrev is_done : Job → Bool
is_done j = is success j.status || is ready j.status || is running j.status || is waiting j.status

-- `AddDependency(model, label, job_class)`, from the split texts and the jobs of the model.
unfoldable pub add_dependency :
    (ext_jobs : List Job) → (labels classes tags options : List String) → Dependency
add_dependency ext_jobs labels classes tags options = record {
  allow = true;
  reason = "";
  targets = zip_targets labels classes tags options;
  done = any_of (λ (j : Job). contains_text classes j.job_class && is_done j) ext_jobs;
}

unfoldable pub make_fail_if : Bool → String → Dependency → Dependency
make_fail_if condition reason d =
    if condition then record d { allow = false; reason = reason } else d

-- `job_success`: one of the classes has a job that has succeeded. `missing` is the text of the reason.
abbrev pub has_success : List Job → List String → Bool
has_success ext_jobs classes =
    any_of (λ (j : Job). contains_text classes j.job_class && is success j.status) ext_jobs

unfoldable pub job_success :
    (ext_jobs : List Job) → (classes : List String) → (missing : String) → Dependency → Dependency
job_success ext_jobs classes missing d =
    if d.allow then make_fail_if (not (has_success ext_jobs classes)) missing d else d

unfoldable pub condition : Bool → String → Dependency → Dependency
condition holds reason d = if d.allow then make_fail_if (not holds) reason d else d

-- `add_to`: the entry of the list has what the dependency has.
unfoldable pub add_to : Dependency → List Dependency → List Dependency
add_to d l = l ++ d ∷ []
