-- ===== src/Scheduler/Picking.antt =====
-- Which job the scheduler takes.
use ava_capture.Base.{
  ℕ, ◌≡◌, ◌==◌, refl, ◌∙◌, sym, ap, if◌then◌else◌, Bool, true, false, ◌&&◌, ◌||◌, ◌⊎◌, inl, inr,
  none, some, List, [], ◌∷◌, arith, In, In-select, select-In, and_split, ==→eq, select, map,
}
use ava_capture.Base.Int.{ℤ, ◌≤ℤ◌}
use ava_capture.Farm.{Farm, Job}
use ava_capture.Scheduler.Order.{
  In-order_by_priority, order_by_priority-In, order_by_priority-Descending, select-Descending,
  first_ready-some, first_ready-none, first_ready-highest,
}
use ava_capture.Scheduler.{
  light, heavy, filter_q, can_run, or_list, Offer, is_candidate, order_by_priority,
  unmet_dependencies, first_ready, gpu_fits, queue, pick_from, free_filters, pick,
}

-- The test of the channels that can run: free, and the job's own.
abbrev pub channel_open : ℕ → List Job → Job → Bool
channel_open node jobs j =
    can_run node jobs light && filter_q light j || can_run node jobs heavy && filter_q heavy j

abbrev OrList : List (Job → Bool) → (Job → Bool) → Type 0
OrList qs test =
    (or_list qs ≡ none) × ((j : Job) → test j ≡ false)
    ⊎ ((p : Job → Bool) × (or_list qs ≡ some p) × ((j : Job) → p j ≡ test j))

pub free_filters-OrList :
    (node : ℕ) (jobs : List Job) → OrList (free_filters node jobs) (channel_open node jobs)
unfolding or_list select
free_filters-OrList node jobs = go (can_run node jobs light) (can_run node jobs heavy)
  where
    go :
        (l h : Bool)
        → OrList
            (map filter_q (
              if l then light ∷ (if h then heavy ∷ [] else []) else (if h then heavy ∷ [] else [])))
            (λ j. l && filter_q light j || h && filter_q heavy j)
    go false false = inl (refl, λ j. refl)
    go true false = inr (filter_q light, refl, λ j. ground arith)
    go false true = inr (filter_q heavy, refl, λ j. refl)
    go true true = inr (λ j. filter_q heavy j || filter_q light j, refl, λ j. ground arith)

-- What the query and the loop test of a job, together.
abbrev pub is_runnable : Offer → ℤ → Farm → Job → Bool
is_runnable o gpu_count w j =
    is_candidate o w j
    && gpu_fits gpu_count j
    && channel_open o.node.id w.jobs j
    && unmet_dependencies w j == 0

pub runnable_parts :
    (o : Offer) (gpu_count : ℤ) (w : Farm) (j : Job)
    → is_runnable o gpu_count w j ≡ true
    → (is_candidate o w j ≡ true)
      × (gpu_fits gpu_count j ≡ true)
      × (channel_open o.node.id w.jobs j ≡ true)
      × (unmet_dependencies w j ≡ 0)
runnable_parts o gpu_count w j r =
    let c = is_candidate o w j in
    let g = gpu_fits gpu_count j in
    let k = channel_open o.node.id w.jobs j in
    let met = unmet_dependencies w j == 0 in
    let (cgk, m) = and_split (c && g && k) met r in
    let (cg, t) = and_split (c && g) k cgk in
    let (yes_c, yes_g) = and_split c g cg in (yes_c, yes_g, t, ==→eq (unmet_dependencies w j) 0 m)

module _ (o : Offer) (gpu_count : ℤ) (w : Farm) (p : Job → Bool)
    (test : (j : Job) → p j ≡ channel_open o.node.id w.jobs j) where
  -- A job is in the queue exactly when it is stored and passes the tests of the query.
  In-queue :
      (j : Job)
      → In j (queue o gpu_count w p)
      → In j w.jobs
        × (is_candidate o w j ≡ true)
        × (gpu_fits gpu_count j ≡ true)
        × (channel_open o.node.id w.jobs j ≡ true)
  In-queue j m =
      let candidates = select (is_candidate o w) w.jobs in
      let (ordered, in_channel) =
        In-select p j (order_by_priority (select (gpu_fits gpu_count) candidates)) m in
      let (fits, gpu) =
        In-select (gpu_fits gpu_count) j candidates
          (In-order_by_priority j (select (gpu_fits gpu_count) candidates) ordered) in
      let (stored, candidate) = In-select (is_candidate o w) j w.jobs fits in
      (stored, candidate, gpu, sym (test j) ∙ in_channel)

  queue-In :
      (j : Job)
      → In j w.jobs
      → is_candidate o w j ≡ true
      → gpu_fits gpu_count j ≡ true
      → channel_open o.node.id w.jobs j ≡ true
      → In j (queue o gpu_count w p)
  queue-In j m candidate gpu open_channel =
      let candidates = select (is_candidate o w) w.jobs in
      select-In p j (order_by_priority (select (gpu_fits gpu_count) candidates))
        (order_by_priority-In j (select (gpu_fits gpu_count) candidates) (
          select-In (gpu_fits gpu_count) j candidates
            (select-In (is_candidate o w) j w.jobs m candidate) gpu))
        (test j ∙ open_channel)

  -- A stored job passes all the tests exactly when it is in the queue with its dependencies met.
  queue-runnable :
      (j : Job)
      → In j (queue o gpu_count w p)
      → unmet_dependencies w j ≡ 0
      → is_runnable o gpu_count w j ≡ true
  queue-runnable j m met = let (_, c, g, k) = In-queue j m in rw (c, g, k, met) refl

  runnable-queue :
      (j : Job)
      → In j w.jobs
      → is_runnable o gpu_count w j ≡ true
      → In j (queue o gpu_count w p) × (unmet_dependencies w j ≡ 0)
  runnable-queue j m r =
      let (c, g, k, met) = runnable_parts o gpu_count w j r in (queue-In j m c g k, met)

-- How the pick comes about: no channel can run, or a walk of the queue.
pick-cases :
    (o : Offer) (gpu_count : ℤ) (w : Farm)
    → (pick o gpu_count w ≡ none) × ((j : Job) → channel_open o.node.id w.jobs j ≡ false)
      ⊎ ((p : Job → Bool) × (pick o gpu_count w ≡ first_ready w (queue o gpu_count w p))
          × ((j : Job) → p j ≡ channel_open o.node.id w.jobs j))
unfolding pick
pick-cases o gpu_count w = elim (free_filters-OrList o.node.id w.jobs) [
  | inl (e, shut) ↦ inl (ap (pick_from o gpu_count w) e, shut)
  | inr (p, e, test) ↦ inr (p, ap (pick_from o gpu_count w) e, test)
]

-- The job that is picked is stored, passes every test, and no stored job that passes them has a
-- higher priority.
pub pick-some :
    (o : Offer) (gpu_count : ℤ) (w : Farm) (j : Job)
    → pick o gpu_count w ≡ some j
    → In j w.jobs
      × (is_runnable o gpu_count w j ≡ true)
      × ((a : Job) → In a w.jobs → is_runnable o gpu_count w a ≡ true → a.priority ≤ℤ j.priority)
pick-some o gpu_count w j h = elim (pick-cases o gpu_count w) [
  | inl (nothing, _) ↦ absurd (cc)
  | inr (p, walk, test) ↦
      let found = sym walk ∙ h in
      let (queued, met) = first_ready-some w j (queue o gpu_count w p) found in
      (
        (In-queue o gpu_count w p test j queued).0,
        queue-runnable o gpu_count w p test j queued met,
        λ a m r.
            let (a_queued, a_met) = runnable-queue o gpu_count w p test a m r in
            first_ready-highest w j a (queue o gpu_count w p)
              (select-Descending p _ (order_by_priority-Descending _)) found a_queued a_met,
      )
]

-- Where no job is picked, no stored job passes the tests.
pub pick-none :
    (o : Offer) (gpu_count : ℤ) (w : Farm) (a : Job)
    → pick o gpu_count w ≡ none
    → In a w.jobs
    → is_runnable o gpu_count w a ≡ true
    → ⊥
pick-none o gpu_count w a h m r = elim (pick-cases o gpu_count w) [
  | inl (_, shut) ↦ cc ((runnable_parts o gpu_count w a r).2, shut a)
  | inr (p, walk, test) ↦
      let (queued, met) = runnable-queue o gpu_count w p test a m r in
      let missed = first_ready-none w a (queue o gpu_count w p) (sym walk ∙ h) queued in
      cc (missed, ap (λ n. n == 0) met)
]
