-- ===== src/Discover/Report.antt =====
-- What a job client posts to `client_discover`, and the site's reply. An optional key of the JSON
-- is an `Option`; the keys that the view reads without a test are there.
use ava_capture.Base.{ℕ, String, Bool, Option, List}
use ava_capture.Base.Int.{ℤ}

-- A child that a job asks for: a dict, or the pair of older clients.
pub data ChildInfo : Type 0 where
  detailed : (job_class params : String) (node_name : Option String) → ChildInfo
  legacy : (job_class params : String) → ChildInfo

-- An entry of `finished_jobs`.
pub record FinishedJob : Type 0 where
  pub job_id : ℕ
  pub progress : Option String
  pub children : Option (List ChildInfo)
  pub success : Option Bool
  pub exception : Option String

pub record ClientReport : Type 0 where
  pub status : Option String
  pub machine_name : String
  pub ip_address : String
  pub system : Option String
  pub system_bits : Option ℕ
  pub cpu_brand : Option String
  pub cpu_cores : Option ℕ
  pub cuda_device_count : Option ℤ
  pub restarted : Option Bool
  pub cpu_percent : Option String
  pub mem_used : Option String
  pub os_version : Option String
  pub code_version : Option ℤ
  pub git_version : Option String
  pub client_tags : Option (List String)
  pub available_jobs : Option (List String)
  pub running_jobs_progress : Option (List (ℕ × String))
  pub running_jobs : Option (List ℕ)
  pub finished_jobs : Option (List FinishedJob)

-- A job that is sent to a client.
pub record JobData : Type 0 where
  pub job_id : ℕ
  pub job_class : String
  pub params : Option String

-- The reply: an empty dict, or work for a node that accepts it.
pub data Reply : Type 0 where
  empty : Reply
  work : (jobs : List JobData) (jobs_to_kill : List ℕ) (req_restart : Bool) → Reply
