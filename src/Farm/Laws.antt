-- ===== src/Farm/Laws.antt =====
-- What the queries and writes of the store answer and leave.
use ava_capture.Base.{ℕ, ◌≡◌, refl, none, some, ◌==◌, if◌then◌else◌}
use ava_capture.Base.Table.{find, find-save}
use ava_capture.Farm.Models.{Job, Node, Farm}
use ava_capture.Base.Effects.{ok, err, does_not_exist}
use ava_capture.Farm.Store.{get_job, get_node, save_job, job_key, node_key}

pub get_job-found :
    (k : ℕ) (j : Job) (w : Farm) → find job_key k w.jobs ≡ some j → get_job k w ≡ (ok j, w)
unfolding get_job
get_job-found k j w e = rw e refl

pub get_job-missing :
    (k : ℕ) (w : Farm) → find job_key k w.jobs ≡ none → get_job k w ≡ (err does_not_exist, w)
unfolding get_job
get_job-missing k w e = rw e refl

pub get_node-found :
    (k : ℕ) (n : Node) (w : Farm) → find node_key k w.nodes ≡ some n → get_node k w ≡ (ok n, w)
unfolding get_node
get_node-found k n w e = rw e refl

pub get_node-missing :
    (k : ℕ) (w : Farm) → find node_key k w.nodes ≡ none → get_node k w ≡ (err does_not_exist, w)
unfolding get_node
get_node-missing k w e = rw e refl

-- A saved job is what a lookup of its key gives, and no other row moves.
pub find-save_job :
    (k : ℕ) (j : Job) (w : Farm)
    → find job_key k (save_job j w).1.jobs ≡ (if j.id == k then some j else find job_key k w.jobs)
unfolding save_job
find-save_job k j w = find-save job_key k j w.jobs

pub save_job-ok : (j : Job) (w : Farm) → (save_job j w).0 ≡ ok tt
unfolding save_job
save_job-ok j w = refl
