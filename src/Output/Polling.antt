-- ===== src/Output/Polling.antt =====
-- A reader of a job's output that polls for what was added gets all of it.
use ava_capture.Base.{
  ℕ, zero, suc, ◌≡◌, refl, ◌∙◌, sym, subst, ap, List, [], ◌∷◌, ◌++◌, length, some, arith, ==_refl,
  ◌≤◌, String, none, inl, inr, ◌⊎◌,
}
use ava_capture.Base.Int.{ℤ, pos}
use ava_capture.Base.Table.{find, save, find-save}
use ava_capture.Farm.{
  Farm, Job, job_key, ok, get_job, get_job-found, >>=-ok, ◌>>=◌, ◌>>◌, gets, modify, pure, Result,
}
use ava_capture.Output.{
  take, drop, file_key, content, append_output, read_chunk, read_file, answer_of, output,
  LogRenderer, content_of, get_output,
}

drop-length : (xs ys : List ℕ) → drop (length xs) (xs ++ ys) ≡ ys
drop-length [] ys = refl
drop-length (x ∷ xs) ys = drop-length xs ys

take_all : (n : ℕ) (xs : List ℕ) → length xs ≤ n → take n xs ≡ xs
take_all zero [] le = refl
take_all (suc n) [] le = refl
take_all zero (x ∷ xs) le = absurd (omega arith)
take_all (suc n) (x ∷ xs) le = ap (λ r. x ∷ r) (take_all n xs (omega arith))

-- The farm after bytes were appended.
abbrev appended : ℕ → List ℕ → Farm → Farm
appended k bytes w = record w { outputs = save file_key (k, content k w ++ bytes) w.outputs }

append_output-found :
    (k : ℕ) (bytes : List ℕ) (j : Job) (w : Farm)
    → find job_key k w.jobs ≡ some j
    → append_output k bytes w ≡ (ok 200, appended k bytes w)
unfolding append_output
append_output-found k bytes j w there =
    >>=-ok (get_job k) (λ _. modify (appended k bytes) >> pure 200) w (get_job-found k j w there)

get_output-found :
    (renderer : LogRenderer) (k : ℕ) (o n : ℤ) (j : Job) (w : Farm)
    → find job_key k w.jobs ≡ some j
    → get_output renderer k o n w
      ≡ (ok (answer_of renderer (read_file o n (find file_key k w.outputs)) j.status), w)
unfolding get_output
get_output-found renderer k o n j w there =
    >>=-ok (get_job k)
      (λ i. gets (λ v. find file_key k v.outputs) >>= λ file.
        pure (answer_of renderer (read_file o n file) i.status))
      w (get_job-found k j w there)

-- The file that is read back, cut at its old end.
tail_read :
    (k : ℕ) (bytes : List ℕ) (n : ℕ) (w : Farm)
    → length bytes ≤ n
    → read_file (pos (length (content k w))) (pos n) (find file_key k (appended k bytes w).outputs)
      ≡ some bytes
unfolding read_chunk
tail_read k bytes n w room =
    rw (find-save file_key k (k, content k w ++ bytes) w.outputs, ==_refl k)
      (ap (λ r. some (take n r)) (drop-length (content k w) bytes)
        ∙ ap some (take_all n bytes room))

-- What the page shows of some bytes: their HTML, and where they cannot be converted, the bytes.
abbrev pub IsShown : LogRenderer → List ℕ → String → Type 0
IsShown renderer bytes text =
    (renderer.convert bytes ≡ some text)
    ⊎ (renderer.convert bytes ≡ none) × (renderer.as_text bytes ≡ some text)

answer_of-IsShown :
    (renderer : LogRenderer) (bytes : List ℕ) (text : String) (j : Job)
    → IsShown renderer bytes text
    → answer_of renderer (some bytes) j.status ≡ output text (length bytes) j.status
unfolding answer_of content_of
answer_of-IsShown renderer bytes text j (inl html) = rw (html, answer_of, content_of) refl
answer_of-IsShown renderer bytes text j (inr (raises, plain)) =
    rw (raises, plain, answer_of, content_of) refl

-- After bytes were posted to the output of a stored job, a request from the old end of the file on
-- that asks for at least as many bytes answers with what the page shows of exactly these bytes,
-- where they can be shown, with their count and with the status of the job.
pub get_output-append_output :
    (renderer : LogRenderer) (k : ℕ) (bytes : List ℕ) (text : String) (n : ℕ) (j : Job) (w : Farm)
    → find job_key k w.jobs ≡ some j
    → length bytes ≤ n
    → IsShown renderer bytes text
    → let (r, w') = append_output k bytes w in
      (r ≡ ok 200)
      × (get_output renderer k (pos (length (content k w))) (pos n) w'
          ≡ (ok (output text (length bytes) j.status), w'))
get_output-append_output renderer k bytes text n j w there room shown =
    subst Reads (sym (append_output-found k bytes j w there)) (
      refl,
      get_output-found renderer k _ _ j (appended k bytes w) there
          ∙ ap (λ o. (ok (answer_of renderer o j.status), appended k bytes w))
              (tail_read k bytes n w room)
          ∙ ap (λ a. (ok a, appended k bytes w)) (answer_of-IsShown renderer bytes text j shown),
    )
  where
    Reads : Result ℕ × Farm → Type 0
    Reads (r, w') =
        (r ≡ ok 200)
        × (get_output renderer k (pos (length (content k w))) (pos n) w'
            ≡ (ok (output text (length bytes) j.status), w'))
