-- ===== src/Sequence.antt =====
-- `AvaSequenceFileReader` of capture-node/raw_file_format_readers.py: the index of a recorded
-- sequence, and where the data of a frame is in the file.
--
-- `struct.unpack` gives the fields of the header and `np.frombuffer` the words of the index; the
-- decompression and the processing of the pixels are numpy's, OpenCV's and lz4's.
pub mod Frames
use ava_capture.Base.{
  ℕ, zero, suc, ◌+◌, ◌-◌, ◌*◌, ◌/◌, ◌==◌, ltb, leb, String, str_eq, if◌then◌else◌, Bool, true,
  false, not, ◌&&◌, ◌||◌, Option, none, some, List, [], ◌∷◌, length,
}
use ava_capture.Base.Int.{ℤ, pos, negsuc}

-- The fields of the header that the reader uses. The white balance goes to the processing alone.
pub record Header : Type 0 where
  pub magic : ℕ
  pub version : ℕ
  pub bitcount : ℕ
  pub width : ℕ
  pub height : ℕ
  pub compression : String
  pub index_offset : ℕ

pub data ReaderError : Type 0 where
  bad_magic bad_version unknown_compression bad_index invalid_frame missing_frame : ReaderError
  index_error type_error : ReaderError

-- The reader's fields. An entry of the index is the offset of a frame, 0 for a missing frame.
pub record Reader : Type 0 where
  pub frame_count : ℕ
  pub index_offset : ℕ
  pub frame_indices : List ℕ
  pub img_data_size : ℕ
  pub raise_error_on_missing_frame : Bool

pub data Outcome (A : Type 0) : Type 0 where
  fine : A → Outcome A
  fails : ReaderError → Outcome A

-- `__init__`: `prefix_of` gives the first three letters, `words` the index of a file of `file_size`
-- bytes, where its bytes are whole words. A file that ends before its index fails in any case.
unfoldable pub open_sequence :
    (prefix_of : String → String)
    → Header
    → (file_size : ℕ) → (words : Option (List ℕ)) → Bool
    → Outcome Reader
open_sequence prefix_of h file_size words strict =
    if not (h.magic == 237)
    then fails bad_magic
    else if not (h.version == 1)
    then fails bad_version
    else if not (str_eq (prefix_of h.compression) "LZ4")
    then fails unknown_compression
    else elim words [
      | none ↦ fails bad_index
      | some frames ↦
          if leb h.index_offset file_size && length frames == (file_size - h.index_offset) / 8
          then fine (record {
            frame_count = (file_size - h.index_offset) / 8;
            index_offset = h.index_offset;
            frame_indices = frames;
            img_data_size = (if ltb 8 h.bitcount then 2 else 1) * h.width * h.height;
            raise_error_on_missing_frame = strict;
          })
          else fails bad_index
    ]

-- The entry of a frame.
abbrev pub entry : ℕ → List ℕ → Option ℕ
entry n [] = none
entry zero (x ∷ xs) = some x
entry (suc n) (x ∷ xs) = entry n xs

-- What `_get_frame_offset_skip` gives: an offset, `None`, or an IndexError.
pub data Skip : Type 0 where
  offset : ℕ → Skip
  nothing : Skip
  out_of_range : Skip

abbrev reverse : List ℕ → List ℕ → List ℕ
reverse [] done = done
reverse (x ∷ xs) done = reverse xs (x ∷ done)

-- Below 0 the index goes on from the last entry, as numpy reads -1, -2, …: an entry that is not 0
-- ends the loop, and the negative index gives `None`; past the first entry numpy raises.
abbrev wrapped : List ℕ → Skip
wrapped [] = out_of_range
wrapped (zero ∷ xs) = wrapped xs
wrapped (suc x ∷ xs) = nothing

-- The loop backwards, from the entry of a frame.
abbrev step_back : Option ℕ → Skip → Skip
step_back none before = nothing
step_back (some zero) before = before
step_back (some (suc o)) before = offset (suc o)

-- `_get_frame_offset_skip(n)`
unfoldable pub skip_back : ℕ → List ℕ → Skip
skip_back zero xs = step_back (entry zero xs) (wrapped (reverse xs []))
skip_back (suc n) xs = step_back (entry (suc n) xs) (skip_back n xs)

-- `_get_frame_offset_skip(n, is_backward=False)`
unfoldable pub skip_forward : ℕ → List ℕ → Skip
skip_forward n [] = nothing
skip_forward zero (zero ∷ xs) = skip_forward zero xs
skip_forward zero (suc o ∷ xs) = offset (suc o)
skip_forward (suc n) (x ∷ xs) = skip_forward n xs

-- `offset_of_next_frame`, in `_compute_frame_size`
unfoldable pub offset_of_next_frame : Reader → ℕ → ℕ
offset_of_next_frame r n =
    if ltb (suc n) r.frame_count
    then elim (skip_forward (suc n) r.frame_indices) [ offset o ↦ o | _ ↦ r.index_offset ]
    else r.index_offset

-- `a - b`
abbrev pub difference : ℕ → ℕ → ℤ
difference a b = if leb b a then pos (a - b) else negsuc (b - a - 1)

abbrev pub region : Skip → ℕ → Outcome (ℕ × ℤ)
region (offset o) next_offset = fine (o, difference next_offset o)
region nothing next_offset = fails type_error
region out_of_range next_offset = fails index_error

-- `_read_frame`: where the read begins, and how much it asks for.
unfoldable pub read_frame : Reader → ℕ → Outcome (ℕ × ℤ)
read_frame r n = region (skip_back n r.frame_indices) (offset_of_next_frame r n)

abbrev pub is_missing : Option ℕ → Bool
is_missing (some zero) = true
is_missing _ = false

-- `_read_one_frame_16bit_linear`, up to the decompression.
unfoldable pub read_one_frame : Reader → ℤ → Outcome (ℕ × ℤ)
read_one_frame r (negsuc n) = fails invalid_frame
read_one_frame r (pos n) =
    if leb r.frame_count n
    then fails invalid_frame
    else if r.raise_error_on_missing_frame && is_missing (entry n r.frame_indices)
    then fails missing_frame
    else read_frame r n
