-- ===== src/JobFiles.antt =====
-- The uploads of a job's image and mesh: `job_image` and `job_mesh` of
-- website-backend/ava/jobs/views.py. The bytes that are written are left out.
use Prim.Native.String.{◌++◌ as ◌<>◌}
use ava_capture.Base.{ℕ, String, if◌then◌else◌, Bool, Option, none, some, List}
use ava_capture.Farm.{Job, Action, ok, err, pure, get_job, save_job, ◌>>=◌, ◌>>◌}
use ava_capture.Names.{padded}
use ava_capture.ShortIds.{uuid_node_base36}

-- The file of a request: what `splitext` gives of its name, and whether it can be written.
pub record ThumbFile : Type 0 where
  pub extension : String
  pub written : Bool

-- The interpreter, the hardware address, and the text of a list of characters.
pub record Host : Type 0 where
  pub has_long : Bool
  pub address : ℕ
  pub text_of : List ℕ → String

-- `'j%08d_%s%s' % (job_id, uuid_node_base36(), ext)`
abbrev pub thumb_filename : Host → (job_id : ℕ) → (extension : String) → Action String
thumb_filename host job_id extension w = elim (uuid_node_base36 host.has_long host.address) [
  | ok digits ↦ (ok ("j" <> padded 8 job_id <> "_" <> host.text_of digits <> extension), w)
  | err e ↦ (err e, w)
]

-- The file of the request, for a job that is there. A file that cannot be written is answered by
-- 500, with the exception as a message.
abbrev pub store_thumb :
    Host → (Job → String → Job) → (job_id : ℕ) → Job → Option ThumbFile → Action ℕ
store_thumb host with_name job_id job none = pure 500
store_thumb host with_name job_id job (some f) = do
  filename ← thumb_filename host job_id f.extension
  (if f.written then (do save_job (with_name job filename); pure 200) else pure 500)

module _ (host : Host) where
  unfoldable pub job_image : ℕ → Option ThumbFile → Action ℕ
  job_image job_id file = do
    job ← get_job job_id
    store_thumb host (λ j name. record j { image_filename = some name }) job_id job file

  unfoldable pub job_mesh : ℕ → Option ThumbFile → Action ℕ
  job_mesh job_id file = do
    job ← get_job job_id
    store_thumb host (λ j name. record j { mesh_filename = some name }) job_id job file
