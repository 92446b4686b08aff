-- ===== src/CopyFiles.antt =====
-- The jobs that copy the files of a take from a capture machine to a storage, and that delete files:
-- `CopyFiles`, `safeCopyFile` and `DeleteFiles` of job_client/jobs/archive.py, over the disks that
-- they see.
--
-- A file is its bytes under its path; two paths that differ are two files. What the operating
-- system allows is the parameter `Os`. The progress of the copy is counted, since a report can
-- raise; its text, the log and the reads that fail half way are left out. The file list is what
-- `json.loads` gives.
pub mod Loop
pub mod Apart
pub mod Copied
pub mod Secured
pub mod Ending
pub mod Folders
pub mod Returns
pub mod Moved
use ava_capture.Base.{
  take, drop, ⊤, ℕ, zero, suc, ◌+◌, ◌*◌, String, str_eq, ◌==◌, if◌then◌else◌, Bool, true, false,
  not, ◌&&◌, ◌||◌, Option, none, some, List, [], ◌∷◌, ◌++◌, length,
}
use ava_capture.Base.Effects.{
  Effect, pure, raise, modify, when, ◌>>=◌, ◌>>◌, or_raise, except_any, for_each, os_error,
  bare_exception, unbound_local, unfinished,
}

-- The files and folders, and how many reports of progress were asked for.
pub record Disk : Type 0 where
  pub files : String → Option (List ℕ)
  pub folders : String → Bool
  pub reports : ℕ

pub record Os : Type 0 where
  -- `os.makedirs` of a folder that is not there, and `os.remove` of a file that is
  pub makes_folder : String → Bool
  pub removes : String → Bool
  -- `open(…, 'wb')`, and a write of these bytes
  pub opens : String → Bool
  pub takes : String → List ℕ → Bool
  -- `os.path.join(dest, os.path.split(src)[1])`
  pub join_name : (dest src : String) → String
  -- `time.time() - self._start_time` at the n-th report, in the clock's ticks
  pub elapsed : ℕ → ℕ
  -- `b'' == ""`, which holds in Python 2 alone
  pub empty_is_text : Bool

abbrev pub Copying : Type 0 → Type 0
Copying A = Effect Disk A

abbrev pub has_file : Option (List ℕ) → Bool
has_file none = false
has_file (some c) = true

-- `os.path.exists`
abbrev pub path_exists : Disk → String → Bool
path_exists w f = has_file (w.files f) || w.folders f

-- `os.path.getsize`; what it says of a folder does not matter, since a folder cannot be opened.
abbrev pub size_of : Option (List ℕ) → ℕ
size_of none = 0
size_of (some c) = length c

abbrev pub put : String → Option (List ℕ) → Disk → Disk
put f c w = record w { files = λ g. if str_eq g f then c else w.files g }

abbrev pub no_bytes : List ℕ → Bool
no_bytes [] = true
no_bytes (x ∷ xs) = false

-- A write at the end of a file that is there.
abbrev pub append_to : String → List ℕ → Option (List ℕ) → Copying ⊤
append_to f arr none w = raise os_error w
append_to f arr (some c) w = pure tt (put f (some (c ++ arr)) w)

-- The source and the folder of each file.
abbrev pub FileList : Type 0
FileList = List (String × String)

-- `block_size=64*1024*1024`
abbrev pub block_size : ℕ
block_size = 64 * 1024 * 1024

-- `skip_file`: the file is at its place, and gone from the source.
abbrev pub skips : Disk → (src dest_file : String) → Bool
skips w src dest_file = path_exists w dest_file && not (path_exists w src)

module _ (os : Os) where
  -- `os.remove`
  unfoldable pub remove : String → Copying ⊤
  remove f w =
      if has_file (w.files f) && os.removes f then pure tt (put f none w) else raise os_error w

  -- `ProgressPercentage.__call__`: the speed is unbound where no time has gone by.
  unfoldable pub progress : Copying ⊤
  progress w =
      (if os.elapsed w.reports == 0 then raise unbound_local else pure tt)
        (record w { reports = w.reports + 1 })

  -- `fout.write(arr)`
  unfoldable pub write : String → List ℕ → Copying ⊤
  write f arr w = if os.takes f arr then append_to f arr (w.files f) w else raise os_error w

  -- `arr != ""` of the loop
  abbrev pub goes_on : List ℕ → Bool
  goes_on arr = not (no_bytes arr && os.empty_is_text)

  -- The loop of `safeCopyFile`, on the bytes of the source that are not read yet.
  unfoldable pub copy_loop : (fuel block : ℕ) → (dest : String) → List ℕ → Copying ⊤
  copy_loop zero block dest unread = raise unfinished
  copy_loop (suc fuel) block dest unread =
      let rest = (do
        write dest (take block unread)
        progress
        copy_loop fuel block dest (drop block unread)) in
      if goes_on (take block unread) then rest else pure tt

  -- `open(dest, 'wb')`
  unfoldable pub open_new : String → Copying ⊤
  open_new f w = if os.opens f then pure tt (put f (some []) w) else raise os_error w

  -- `safeCopyFile`
  unfoldable pub safe_copy_file : (fuel : ℕ) → (src dest : String) → Copying ⊤
  safe_copy_file fuel src dest = do
    (λ w. (if path_exists w dest then remove dest else pure tt) w)
    fin ← (λ w. or_raise (w.files src) os_error w)
    open_new dest
    copy_loop fuel block_size dest fin

  -- `try: os.makedirs(dest) except: pass`
  unfoldable pub make_folder : String → Copying ⊤
  make_folder d = modify λ w. record w {
    folders = λ g. (str_eq g d && not (path_exists w d) && os.makes_folder d) || w.folders g;
  }

  -- `if not os.path.exists(f): raise Exception(…)`
  abbrev pub must_exist : String → Copying ⊤
  must_exist f w = (if path_exists w f then pure tt else raise bare_exception) w

  -- `if not os.path.getsize(f) == size: raise Exception(…)`
  abbrev pub must_have_size : String → ℕ → Copying ⊤
  must_have_size f size w =
      (if size_of (w.files f) == size then pure tt else raise bare_exception) w

  -- The copy of a file that is not skipped.
  unfoldable pub copy_present : (fuel : ℕ) → (src dest_file : String) → Copying ⊤
  copy_present fuel src dest_file = do
    must_exist src
    file_size ← (λ w. pure (size_of (w.files src)) w)
    safe_copy_file fuel src dest_file
    must_exist dest_file
    must_have_size dest_file file_size

  -- The body of the loop over the files.
  unfoldable pub copy_one : (fuel : ℕ) → String × String → Copying ⊤
  copy_one fuel (src, dest) = do
    make_folder dest
    must_exist dest
    (λ w.
        (if skips w src (os.join_name dest src)
            then pure tt
            else copy_present fuel src (os.join_name dest src))
          w)

  -- `if os.path.exists(src): try: os.remove(src) except: log`
  unfoldable pub delete_source : String × String → Copying ⊤
  delete_source (src, dest) w = (if path_exists w src then except_any (remove src) else pure tt) w

  -- `CopyFiles.__call__`
  unfoldable pub copy_files : (fuel : ℕ) → Option FileList → (delete_src_files : Bool) → Copying ⊤
  copy_files fuel none delete_src_files = pure tt
  copy_files fuel (some file_list) delete_src_files = do
    for_each (copy_one fuel) file_list
    when delete_src_files (for_each delete_source file_list)

  -- `DeleteFiles.__call__`, on the files of its parameters
  unfoldable pub delete_listed : Option (List String) → Copying ⊤
  delete_listed none = pure tt
  delete_listed (some names) =
      for_each (λ f w. (if path_exists w f then except_any (remove f) else pure tt) w) names
