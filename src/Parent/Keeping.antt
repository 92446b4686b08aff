-- ===== src/Parent/Keeping.antt =====
-- A rule for what `onJobChanged` keeps: it returns, and the table stays sound.
use ava_capture.Base.{
  All-In, ⊤, ℕ, suc, ◌≡◌, refl, sym, subst, Bool, true, false, Option, none, some, List, arith, inl,
  inr, Bool-cases,
}
use ava_capture.Base.Table.{find, save, find-In}
use ava_capture.Farm.{
  Env, Farm, Job, waiting, is, job_key, Result, ok, when, >>=-ok, ◌>>◌, get_job, get_job-found,
  save_job,
}
use ava_capture.Parent.{
  show_counts, settle, all_settled, final_status, with_parent, changed_with, refresh,
  on_job_changed,
}
use ava_capture.Parent.Depth.{
  show_progress, settle_once, sent_after, changed_with-notices, on_job_changed_depth,
}
use ava_capture.Parent.Verdict.{IsStored}
use ava_capture.Parent.Sound.{is_live, IsSound, IsStored-save, save-IsSound}

-- What is kept when a job that is not live, and whose parent has a row, is saved.
abbrev pub KeptBySaves : (List Job → Type 0) → Type 0
KeptBySaves P =
    (j : Job) (jobs : List Job) → P jobs → is_live j.status ≡ false → P (save job_key j jobs)

module _ (P : List Job → Type 0) (keep : KeptBySaves P) where
  -- An action has returned, the table is sound, and `P` holds.
  abbrev pub Sound : Result ⊤ × Farm → Type 0
  Sound (r, w') = (r ≡ ok tt) × IsSound w'.jobs × P w'.jobs

  pub save_job-Sound :
      (j : Job) (w : Farm)
      → IsSound w.jobs
      → P w.jobs
      → IsStored w.jobs j.parent
      → is_live j.status ≡ false
      → Sound (save_job j w)
  unfolding save_job
  save_job-Sound j w sound p own idle =
      (refl, save-IsSound j w.jobs sound own, keep j w.jobs p idle)

  parent-IsStored :
      (k : ℕ) (q : Job) (jobs : List Job)
      → IsSound jobs
      → find job_key k jobs ≡ some q
      → IsStored jobs q.parent
  parent-IsStored k q jobs sound there =
      All-In (λ i. IsStored jobs i.parent) jobs q sound.parents (find-In job_key k q jobs there).0

  show_progress-Sound :
      (k : ℕ) (q : Job) (w : Farm)
      → IsSound w.jobs
      → P w.jobs
      → find job_key k w.jobs ≡ some q
      → Sound (show_progress q w)
  show_progress-Sound k q w sound p there = go (is waiting q.status) refl
    where
      go : (b : Bool) → is waiting q.status ≡ b → Sound (when b (save_job (show_counts q w.jobs)) w)
      go false e = (refl, sound, p)
      go true e =
          save_job-Sound (show_counts q w.jobs) w sound p (parent-IsStored k q w.jobs sound there)
            (ground arith)

  module _ (env : Env) where
    -- The parent's update decides for `onJobChanged`.
    changed_with-Sound :
        (update : Job → Farm → Result ⊤ × Farm) (j : Job) (w : Farm)
        → IsSound w.jobs
        → P w.jobs
        → IsStored w.jobs j.parent
        → ((k : ℕ) (q : Job) (w' : Farm)
            → IsSound w'.jobs
            → P w'.jobs
            → find job_key k w'.jobs ≡ some q
            → Sound (update q w'))
        → Sound (changed_with env update j w)
    changed_with-Sound update j w sound p own parent =
        subst Sound (sym (changed_with-notices env update j w)) (go j.parent own)
      where
        after : Farm
        after = record w { notices = sent_after env j w.notices }

        go : (o : Option ℕ) → IsStored w.jobs o → Sound (with_parent update o after)
        go none h = (refl, sound, p)
        go (some k) (q, there) =
            subst Sound (sym (>>=-ok (get_job k) update after (get_job-found k q after there)))
              (parent k q after sound p there)

-- With `P`, the parent of one job keeps its row.
abbrev WithParent : (List Job → Type 0) → Option ℕ → List Job → Type 0
WithParent P o jobs = P jobs × IsStored jobs o

WithParent-KeptBySaves :
    (P : List Job → Type 0) (o : Option ℕ) → KeptBySaves P → KeptBySaves (WithParent P o)
WithParent-KeptBySaves P o keep j jobs h idle = (keep j jobs h.0 idle, IsStored-save j o jobs h.1)

settled_idle : (k : ℕ) (jobs : List Job) → is_live (final_status k jobs) ≡ false
unfolding final_status
settled_idle k jobs = ground arith

module _ (P : List Job → Type 0) (keep : KeptBySaves P) (env : Env) where
  settling-Sound :
      (k : ℕ) (q : Job) (w : Farm)
      → IsSound w.jobs
      → P w.jobs
      → find job_key k w.jobs ≡ some q
      → Sound P keep (
          (changed_with env show_progress (settle env q w.jobs) >> save_job (settle env q w.jobs))
            w)
  settling-Sound k q w sound p there =
      subst (Sound P keep) (sym reached)
        (save_job-Sound P keep q' after first.1 first.2.0 first.2.1 (settled_idle q.id w.jobs))
    where
      q' : Job
      q' = settle env q w.jobs

      after : Farm
      after = (changed_with env show_progress q' w).1

      own : IsStored w.jobs q.parent
      own = parent-IsStored P keep k q w.jobs sound there

      P' : List Job → Type 0
      P' = WithParent P q.parent

      keep' : KeptBySaves P'
      keep' = WithParent-KeptBySaves P q.parent keep

      first : Sound P' keep' (changed_with env show_progress q' w)
      first =
          changed_with-Sound P' keep' env show_progress q' w sound (p, own) own
            (show_progress-Sound P' keep')

      reached : (changed_with env show_progress q' >> save_job q') w ≡ save_job q' after
      reached =
          >>=-ok (changed_with env show_progress q') (λ _. save_job q') w (λ i. (first.0 i, after))

  refresh-Sound :
      (k : ℕ) (q : Job) (w : Farm)
      → IsSound w.jobs
      → P w.jobs
      → find job_key k w.jobs ≡ some q
      → q.status ≡ waiting
      → Sound P keep (refresh env show_progress q w)
  unfolding refresh
  refresh-Sound k q w sound p there waits =
      let own = parent-IsStored P keep k q w.jobs sound there in
      elim (Bool-cases (all_settled q.id w.jobs)) [
        | inr not_yet ↦
            rw not_yet (save_job-Sound P keep (show_counts q w.jobs) w sound p own (ground arith))
        | inl all_done ↦ elim (Bool-cases (is (final_status q.id w.jobs) q.status)) [
          | inl same ↦
              rw (all_done, same)
                (save_job-Sound P keep
                  (record (show_counts q w.jobs) { status = final_status q.id w.jobs }) w sound p
                  own (settled_idle q.id w.jobs))
          | inr other ↦ rw (all_done, other) (settling-Sound k q w sound p there)
        ]
      ]

  settle_once-Sound :
      (k : ℕ) (q : Job) (w : Farm)
      → IsSound w.jobs
      → P w.jobs
      → find job_key k w.jobs ≡ some q
      → Sound P keep (settle_once env q w)
  unfolding settle_once
  settle_once-Sound k q w sound p there = go (is waiting q.status) refl
    where
      go :
          (b : Bool)
          → is waiting q.status ≡ b
          → Sound P keep (when b (refresh env show_progress q) w)
      go false e = (refl, sound, p)
      go true e = refresh-Sound k q w sound p there (ground arith)

  -- `onJobChanged` for a job whose parent has a row returns, leaves the table sound, and keeps all
  -- that the saving of jobs which are not live keeps.
  pub on_job_changed-Sound :
      (fuel : ℕ) (j : Job) (w : Farm)
      → IsSound w.jobs
      → P w.jobs
      → IsStored w.jobs j.parent
      → Sound P keep (on_job_changed env (suc (suc fuel)) j w)
  on_job_changed-Sound fuel j w sound p own =
      subst (Sound P keep) (sym (on_job_changed_depth env fuel j w))
        (changed_with-Sound P keep env (settle_once env) j w sound p own settle_once-Sound)
