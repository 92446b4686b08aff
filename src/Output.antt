-- ===== src/Output.antt =====
-- The output log of a job: `job_output` of website-backend/ava/jobs/views.py.
--
-- A file is its bytes. `int()` of the query's texts is taken as done; a text that is no number
-- raises before anything happens. The conversion of the log to HTML, by a package, is a parameter.
pub mod Polling
use ava_capture.Base.{
  take, drop, ⊤, ℕ, zero, suc, String, ◌==◌, if◌then◌else◌, Bool, true, false, Option, none, some,
  List, [], ◌∷◌, ◌++◌, length,
}
use ava_capture.Base.Int.{ℤ, pos, negsuc}
use ava_capture.Base.Table.{find, save}
use ava_capture.Farm.{Farm, Job, Status, Action, pure, gets, modify, ◌>>=◌, ◌>>◌, get_job, save_job}

abbrev pub file_key : ℕ × List ℕ → ℕ
file_key e = e.0

-- The bytes of the file, and the empty file where there is none yet.
unfoldable pub content : ℕ → Farm → List ℕ
content k w = elim (find file_key k w.outputs) [ none ↦ [] | some e ↦ e.1 ]

-- The POST branch of `job_output`: the chunks go to the end of the file.
unfoldable pub append_output : ℕ → List ℕ → Action ℕ
append_output k bytes = do
  job ← get_job k
  modify λ w. record w { outputs = save file_key (k, content k w ++ bytes) w.outputs }
  pure 200

-- `f.seek(offset)` and `f.read(length)`: a negative offset raises, and so does a negative length
-- other than -1, which reads to the end.
unfoldable pub read_chunk : ℤ → ℤ → List ℕ → Option (List ℕ)
read_chunk (negsuc o) n bytes = none
read_chunk (pos o) (pos n) bytes = some (take n (drop o bytes))
read_chunk (pos o) (negsuc zero) bytes = some (drop o bytes)
read_chunk (pos o) (negsuc (suc n)) bytes = none

-- What the packages make of the bytes that were read: the HTML of `Ansi2HTMLConverter`, and the text
-- that the JSON of the answer has for the bytes themselves. Each is `none` where it raises.
pub record LogRenderer : Type 0 where
  pub convert : List ℕ → Option String
  pub as_text : List ℕ → Option String

-- The JSON of the answer, or 404.
pub data OutputAnswer : Type 0 where
  output : (text : String) (count : ℕ) (status : Status) → OutputAnswer
  not_found : OutputAnswer

-- `content`: the HTML, and the bytes where the conversion raises.
unfoldable pub content_of : LogRenderer → List ℕ → Option String
content_of renderer data_read = elim (renderer.convert data_read) [
  | some html ↦ some html
  | none ↦ renderer.as_text data_read
]

-- An answer whose JSON cannot be written raises, and so does the read: both give 404.
unfoldable pub answer_of : LogRenderer → Option (List ℕ) → Status → OutputAnswer
answer_of renderer none status = not_found
answer_of renderer (some data_read) status = elim (content_of renderer data_read) [
  | some text ↦ output text (length data_read) status
  | none ↦ not_found
]

abbrev pub read_file : ℤ → ℤ → Option (ℕ × List ℕ) → Option (List ℕ)
read_file offset count none = none
read_file offset count (some e) = read_chunk offset count e.1

-- The GET branch of `job_output`.
unfoldable pub get_output : LogRenderer → ℕ → ℤ → ℤ → Action OutputAnswer
get_output renderer k offset count = do
  job ← get_job k
  file ← gets λ w. find file_key k w.outputs
  pure (answer_of renderer (read_file offset count file) job.status)
