-- ===== src/ExportTake.antt =====
-- The job that exports a take: `ExportTake` of job_client/jobs/archive.py launches a job that copies
-- files for each machine that has some.
--
-- The parameters are what `json.loads` gives; a dict is the list of its items.
pub mod Launches
pub mod Exported
use ava_capture.Base.{⊤, ℕ, String, Bool, true, false, Option, none, some, List, [], ◌∷◌, map}
use ava_capture.Farm.{Env, Farm, User, Action, raise, bare_exception}
use ava_capture.JobApi.{Rest}
use ava_capture.Launch.{Call, call_of, yield_to_children_of}
use ava_capture.CopyFiles.{FileList}

-- The parameters of the job.
pub record ExportParams : Type 0 where
  pub root_export_path : Option String
  pub nodes : Option (List (String × FileList))

-- `json.dumps` of the parameters of a copy
abbrev pub DumpsCopy : Type 0
DumpsCopy =
    (file_list : FileList) → (root_export_path : String) → (delete_source_files : Bool) → String

-- `child_launch_info`
unfoldable pub child_launch_info :
    DumpsCopy → (root_export_path : String) → String × FileList → Call
child_launch_info dumps root_export_path (node_name, file_list) =
    record (call_of "jobs.archive.CopyFiles") {
      params = dumps file_list root_export_path true;
      node_name = some node_name;
      req_gpu = false;
    }

module _ (env : Env) (rest : Rest) (user : User) (others : Farm → Farm) (job_id : Option ℕ) where
  -- The checks of the parameters, one after the other, and the launches.
  abbrev pub export_checked :
      DumpsCopy → Option String → Option (List (String × FileList)) → Action ⊤
  export_checked dumps none nodes = raise bare_exception
  export_checked dumps (some root_export_path) none = raise bare_exception
  export_checked dumps (some root_export_path) (some nodes) =
      yield_to_children_of env rest user others job_id
        (map (child_launch_info dumps root_export_path) nodes)

  -- `ExportTake.__call__`
  unfoldable pub export_take_job : DumpsCopy → ExportParams → Action ⊤
  export_take_job dumps params = export_checked dumps params.root_export_path params.nodes
