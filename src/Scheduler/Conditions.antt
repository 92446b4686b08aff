-- ===== src/Scheduler/Conditions.antt =====
-- The tests of the scheduler one by one: each holds exactly where what it stands for holds.
use ava_capture.Base.{
  String, ◌≡◌, ◌≢◌, ◌==◌, refl, Bool, true, false, not, ◌&&◌, ◌⊎◌, inl, inr, none, some, arith, In,
  Bool-cases, and_split, contains_text, contains_text→In, In→contains_text, any_of, any_of→In,
  In→any_of, count_where_pos, count_where_zero, count_where_none, subst, ==→eq,
}
use ava_capture.Base.Int.{ℤ, pos, leb_ℤ, ◌≤ℤ◌, leb_ℤ→le}
use ava_capture.Farm.{Farm, Job, ready, running, success, is, refers}
use ava_capture.Scheduler.{
  Channel, light, heavy, light_job_classes, filter_q, nb_running, can_run, Offer, is_excluded,
  is_candidate, unmet_dependencies, gpu_fits,
}
use ava_capture.Scheduler.Picking.{channel_open}

-- Light and heavy jobs do not share a channel.
abbrev pub is_light : Job → Bool
is_light j = contains_text light_job_classes j.job_class

module _ (o : Offer) (gpu_count : ℤ) (w : Farm) (j : Job) where
  pub candidate-parts :
      is_candidate o w j ≡ true
      → (j.status ≡ ready)
        × (j.req_version ≤ℤ o.node.code_version)
        × ((j.node ≡ some o.node.id) ⊎ (o.node.active ≡ true) × (j.node ≡ none))
        × (contains_text o.available j.job_class ≡ true)
        × (is_excluded w.job_tags o.excluded j ≡ false)
  unfolding is_candidate
  candidate-parts h = ground arith

  pub parts-candidate :
      j.status ≡ ready
      → j.req_version ≤ℤ o.node.code_version
      → ((j.node ≡ some o.node.id) ⊎ (o.node.active ≡ true) × (j.node ≡ none))
      → contains_text o.available j.job_class ≡ true
      → is_excluded w.job_tags o.excluded j ≡ false
      → is_candidate o w j ≡ true
  unfolding is_candidate
  parts-candidate s v p c t = ground arith

  pub tags-excluded :
      is_excluded w.job_tags o.excluded j ≡ false
      → (t : String) → In (j.id, t) w.job_tags
      → In t o.excluded
      → ⊥
  unfolding is_excluded
  tags-excluded h t m e = cc (
    h,
    In→any_of (λ e. e.0 == j.id && contains_text o.excluded e.1) (j.id, t) w.job_tags m
        (ground (arith, In→contains_text o.excluded t e)),
  )

  pub excluded-tags :
      ((t : String) → In (j.id, t) w.job_tags → In t o.excluded → ⊥)
      → is_excluded w.job_tags o.excluded j ≡ false
  unfolding is_excluded
  excluded-tags free = elim (Bool-cases (is_excluded w.job_tags o.excluded j)) [
    | inr clear ↦ clear
    | inl hit ↦
        let (e, m, test) =
          any_of→In (λ e. e.0 == j.id && contains_text o.excluded e.1) w.job_tags hit in
        let (same, bad) = and_split (e.0 == j.id) (contains_text o.excluded e.1) test in
        absurd (
          free e.1 (subst (λ k. In (k, e.1) w.job_tags) (==→eq e.0 j.id same) m)
            (contains_text→In o.excluded e.1 bad))
  ]

  -- A running job of the channel on the node is counted.
  running-counted :
      (c : Channel) (r : Job)
      → In r w.jobs
      → r.status ≡ running
      → r.node ≡ some o.node.id
      → filter_q c r ≡ true
      → can_run o.node.id w.jobs c ≡ false
  unfolding can_run nb_running
  running-counted c r m runs here own = ground (
    arith,
    count_where_pos (λ i. is running i.status && refers i.node o.node.id && filter_q c i) w.jobs r m
        (ground arith),
  )

  none-counted :
      (c : Channel)
      → ((r : Job)
          → In r w.jobs
          → r.status ≡ running
          → r.node ≡ some o.node.id
          → filter_q c r ≡ true
          → ⊥)
      → can_run o.node.id w.jobs c ≡ true
  unfolding can_run nb_running
  none-counted c free =
      rw
        (count_where_none (λ i. is running i.status && refers i.node o.node.id && filter_q c i)
          w.jobs λ r m t. counted r m t)
        refl
    where
      counted :
          (r : Job)
          → In r w.jobs
          → (is running r.status && refers r.node o.node.id && filter_q c r) ≡ true
          → ⊥
      counted r m t = free r m (ground arith) (ground arith) (ground arith)

  pub open-channel :
      channel_open o.node.id w.jobs j ≡ true
      → (r : Job) → In r w.jobs
      → r.status ≡ running
      → r.node ≡ some o.node.id
      → is_light r ≢ is_light j
  unfolding filter_q
  open-channel h r m runs here same =
      ground (arith, running-counted light r m runs here, running-counted heavy r m runs here)

  pub channel-open :
      ((r : Job)
        → In r w.jobs
        → r.status ≡ running
        → r.node ≡ some o.node.id
        → is_light r ≢ is_light j)
      → channel_open o.node.id w.jobs j ≡ true
  unfolding filter_q
  channel-open free = elim (Bool-cases (is_light j)) [
    | inl its_light ↦
        ground (arith, none-counted light λ r m runs here own. free r m runs here (cc))
    | inr its_heavy ↦
        ground (arith, none-counted heavy λ r m runs here own. free r m runs here (ground arith))
  ]

  pub met-dependencies :
      unmet_dependencies w j ≡ 0
      → (d : Job) → In d w.jobs
      → In (j.id, d.id) w.dependencies
      → d.status ≡ success
  unfolding unmet_dependencies
  met-dependencies h d m e = ground (
    arith,
    In→any_of (λ e. e.0 == j.id && e.1 == d.id) (j.id, d.id) w.dependencies e (ground arith),
    count_where_zero
        (λ d. any_of (λ e. e.0 == j.id && e.1 == d.id) w.dependencies && not (is success d.status))
        w.jobs d h m,
  )

  pub dependencies-met :
      ((d : Job) → In d w.jobs → In (j.id, d.id) w.dependencies → d.status ≡ success)
      → unmet_dependencies w j ≡ 0
  unfolding unmet_dependencies
  dependencies-met free =
      count_where_none
        (λ d. any_of (λ e. e.0 == j.id && e.1 == d.id) w.dependencies && not (is success d.status))
        w.jobs unmet
    where
      unmet :
          (d : Job)
          → In d w.jobs
          → (any_of (λ e. e.0 == j.id && e.1 == d.id) w.dependencies && not (is success d.status))
            ≡ true
          → ⊥
      unmet d m t =
          let depends = any_of (λ e. e.0 == j.id && e.1 == d.id) w.dependencies in
          let (listed, open_d) = and_split depends (not (is success d.status)) t in
          let (e, there, same) =
            any_of→In (λ e. e.0 == j.id && e.1 == d.id) w.dependencies listed in
          let (from, to) = and_split (e.0 == j.id) (e.1 == d.id) same in
          let link : e ≡ (j.id, d.id) = λ i. (==→eq e.0 j.id from i, ==→eq e.1 d.id to i) in
          let done = free d m (subst (λ x. In x w.dependencies) link there) in ground arith

pub gpu-fits :
    (gpu_count : ℤ) (j : Job)
    → (gpu_count ≤ℤ pos 0 → j.req_gpu ≡ false)
    → gpu_fits gpu_count j ≡ true
gpu-fits gpu_count j free = elim (Bool-cases (leb_ℤ gpu_count (pos 0))) [
  | inl none_there ↦ rw (none_there, free (leb_ℤ→le gpu_count (pos 0) none_there)) refl
  | inr some_there ↦ rw some_there refl
]

pub fits-gpu :
    (gpu_count : ℤ) (j : Job) → gpu_fits gpu_count j ≡ true → gpu_count ≤ℤ pos 0 → j.req_gpu ≡ false
fits-gpu gpu_count j h none_there = ground arith
