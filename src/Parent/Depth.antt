-- ===== src/Parent/Depth.antt =====
-- How deep `UpdateParentJob` calls itself.
use ava_capture.Base.{
  ⊤, ℕ, suc, ◌≡◌, refl, Bool, true, false, not, ◌&&◌, Option, none, some, List, [], ◌∷◌, ◌++◌,
  arith, In, inl, inr, ◌∙◌, sym, Bool-cases, Option-cases,
}
use ava_capture.Base.Table.{find, find-In, find_self}
use ava_capture.Farm.{
  Env, Farm, Job, Notice, failed, waiting, is, job_key, Action, ok, when, bind_eq, >>=-ok, >>=-err,
  get_job, get_job-found, get_job-missing, save_job,
}
use ava_capture.Parent.{
  is_child, has_parent, color_of, notify, with_parent, show_counts, job_notification, changed_with,
  settle, refresh, all_settled, final_status, update_parent_job, on_job_changed,
}
use ava_capture.Parent.Counting.{waiting_child_blocks}

-- What is left of `UpdateParentJob` for a job that cannot settle: its progress text.
abbrev pub show_progress : Job → Action ⊤
show_progress j w = when (is waiting j.status) (save_job (show_counts j w.jobs)) w

-- What a notification adds to what was sent.
abbrev pub noted : Bool → Notice → List Notice → List Notice
noted true n sent = sent ++ n ∷ []
noted false n sent = sent

when-notify :
    (b : Bool) (n : Notice) (w : Farm)
    → when b (notify n) w ≡ (ok tt, record w { notices = noted b n w.notices })
when-notify true n w = refl
when-notify false n w = refl

-- Only what the update does to the stored parent matters.
with_parent_eq :
    (u v : Job → Action ⊤) (p : Option ℕ) (w : Farm)
    → ((k : ℕ) (q : Job) → p ≡ some k → find job_key k w.jobs ≡ some q → u q w ≡ v q w)
    → with_parent u p w ≡ with_parent v p w
with_parent_eq u v none w h = refl
with_parent_eq u v (some k) w h = elim (Option-cases (find job_key k w.jobs)) [
  | inl gone ↦
      >>=-err (get_job k) u w (get_job-missing k w gone)
      ∙ sym (>>=-err (get_job k) v w (get_job-missing k w gone))
  | inr (q, there) ↦
      >>=-ok (get_job k) u w (get_job-found k q w there)
      ∙ h k q refl there
      ∙ sym (>>=-ok (get_job k) v w (get_job-found k q w there))
]

module _ (env : Env) where
  -- The notices after `job_notification`.
  pub sent_after : Job → List Notice → List Notice
  sent_after j sent =
      noted (not (has_parent j) && not (is waiting j.status) && env.slack_notif_hook)
        (Notice.slack_job (color_of j.status) j)
        (noted (is failed j.status && not (has_parent j) && env.notification_email) (Notice.email j)
          sent)

  pub job_notification-notices :
      (j : Job) (w : Farm)
      → job_notification env j w ≡ (ok tt, record w { notices = sent_after j w.notices })
  unfolding job_notification sent_after
  job_notification-notices j w =
      >>=-ok
        (when (is failed j.status && not (has_parent j) && env.notification_email)
          (notify (Notice.email j)))
        (λ _. when_slack) w (when-notify _ (Notice.email j) w)
      ∙ when-notify slack (Notice.slack_job (color_of j.status) j) _
    where
      slack : Bool
      slack = not (has_parent j) && not (is waiting j.status) && env.slack_notif_hook

      when_slack : Action ⊤
      when_slack = when slack (notify (Notice.slack_job (color_of j.status) j))

  pub changed_with-notices :
      (update : Job → Action ⊤) (j : Job) (w : Farm)
      → changed_with env update j w
        ≡ with_parent update j.parent (record w { notices = sent_after j w.notices })
  unfolding changed_with
  changed_with-notices update j w =
      >>=-ok (job_notification env j) (λ _. with_parent update j.parent) w
        (job_notification-notices j w)

  pub blocked-show_progress :
      (fuel : ℕ) (q c : Job) (w : Farm)
      → In c w.jobs
      → is_child q.id c ≡ true
      → c.status ≡ waiting
      → update_parent_job env (suc fuel) q w ≡ show_progress q w
  unfolding update_parent_job refresh
  blocked-show_progress fuel q c w m child status = elim (Bool-cases (is waiting q.status)) [
    | inl open_q ↦ rw (open_q, waiting_child_blocks q.id c w.jobs m child status) refl
    | inr closed_q ↦ rw closed_q refl
  ]

  -- A job that is stored as waiting asks its own parent for no more than the progress text.
  changed-show_progress :
      (fuel : ℕ) (j old : Job) (w : Farm)
      → find job_key j.id w.jobs ≡ some old
      → old.status ≡ waiting
      → j.parent ≡ old.parent
      → changed_with env (update_parent_job env (suc fuel)) j w ≡ changed_with env show_progress j w
  changed-show_progress fuel j old w stored status same =
      changed_with-notices (update_parent_job env (suc fuel)) j w
      ∙ with_parent_eq (update_parent_job env (suc fuel)) show_progress j.parent after only_text
      ∙ sym (changed_with-notices show_progress j w)
    where
      after : Farm
      after = record w { notices = sent_after j w.notices }

      only_text :
          (k : ℕ) (q : Job)
          → j.parent ≡ some k
          → find job_key k w.jobs ≡ some q
          → update_parent_job env (suc fuel) q after ≡ show_progress q after
      only_text k q is_parent there =
          blocked-show_progress fuel q old after (find-In job_key j.id old w.jobs stored).0
            (ground (arith, (find-In job_key k q w.jobs there).1)) status

  -- `UpdateParentJob` with the call of its own parent cut down to the progress text.
  unfoldable pub settle_once : Job → Action ⊤
  settle_once j w = when (is waiting j.status) (refresh env show_progress j) w

  refresh_eq :
      (u v : Job → Action ⊤) (j : Job) (w : Farm)
      → changed_with env u (settle env j w.jobs) w ≡ changed_with env v (settle env j w.jobs) w
      → refresh env u j w ≡ refresh env v j w
  unfolding refresh
  refresh_eq u v j w e = elim (Bool-cases (all_settled j.id w.jobs)) [
    | inr not_yet ↦ rw not_yet refl
    | inl all_done ↦ elim (Bool-cases (is (final_status j.id w.jobs) j.status)) [
      | inl same ↦ rw (all_done, same) refl
      | inr other ↦
          rw (all_done, other)
            (bind_eq (changed_with env u (settle env j w.jobs))
              (changed_with env v (settle env j w.jobs)) (λ _. save_job (settle env j w.jobs)) w e)
    ]
  ]

  pub update_parent_job_once :
      (fuel : ℕ) (j : Job) (w : Farm)
      → find job_key j.id w.jobs ≡ some j
      → update_parent_job env (suc (suc fuel)) j w ≡ settle_once j w
  unfolding update_parent_job settle_once
  update_parent_job_once fuel j w stored = go (is waiting j.status) refl
    where
      go :
          (b : Bool)
          → is waiting j.status ≡ b
          → when b (refresh env (update_parent_job env (suc fuel)) j) w
            ≡ when b (refresh env show_progress j) w
      go false e = refl
      go true e =
          refresh_eq (update_parent_job env (suc fuel)) show_progress j w
            (changed-show_progress fuel (settle env j w.jobs) j w stored (ground arith) refl)

  -- `UpdateParentJob` calls itself at most once: two levels of calls are enough for every job and
  -- every farm, since a job that settles is still stored as waiting, so that its own parent gets no
  -- more than a new progress text.
  pub on_job_changed_depth :
      (fuel : ℕ) (j : Job) (w : Farm)
      → on_job_changed env (suc (suc fuel)) j w ≡ changed_with env settle_once j w
  unfolding on_job_changed
  on_job_changed_depth fuel j w =
      changed_with-notices (update_parent_job env (suc (suc fuel))) j w
      ∙ with_parent_eq (update_parent_job env (suc (suc fuel))) settle_once j.parent after once
      ∙ sym (changed_with-notices settle_once j w)
    where
      after : Farm
      after = record w { notices = sent_after j w.notices }

      once :
          (k : ℕ) (q : Job)
          → j.parent ≡ some k
          → find job_key k w.jobs ≡ some q
          → update_parent_job env (suc (suc fuel)) q after ≡ settle_once q after
      once k q is_parent there =
          update_parent_job_once fuel q after (find_self job_key k q w.jobs there)
