-- ===== src/Scheduler/Order.antt =====
-- The order of the queue, and the loop that walks it.
use ava_capture.Base.{
  ◌≡◌, ◌==◌, Bool, true, false, ◌⊎◌, inl, inr, none, some, List, [], ◌∷◌, arith, In, In-select,
  Bool-cases, select,
}
use ava_capture.Base.Int.{leb_ℤ, ◌≤ℤ◌, leb_ℤ→le, leb_ℤ_false→le}
use ava_capture.Farm.{Farm, Job}
use ava_capture.Scheduler.{insert_by_priority, order_by_priority, unmet_dependencies, first_ready}

-- Ordering keeps the jobs.
In-insert_by_priority :
    (a j : Job) (js : List Job) → In a (insert_by_priority j js) → (a ≡ j) ⊎ In a js
unfolding insert_by_priority
In-insert_by_priority a j [] m = m
In-insert_by_priority a j (k ∷ ks) m = ground (arith, In-insert_by_priority a j ks)

insert_by_priority-In :
    (a j : Job) (js : List Job) → (a ≡ j) ⊎ In a js → In a (insert_by_priority j js)
unfolding insert_by_priority
insert_by_priority-In a j [] m = m
insert_by_priority-In a j (k ∷ ks) m = ground (arith, insert_by_priority-In a j ks)

pub In-order_by_priority : (a : Job) (js : List Job) → In a (order_by_priority js) → In a js
unfolding order_by_priority
In-order_by_priority a [] m = m
In-order_by_priority a (j ∷ js) m =
    ground (arith, In-insert_by_priority a j (order_by_priority js) m, In-order_by_priority a js)

pub order_by_priority-In : (a : Job) (js : List Job) → In a js → In a (order_by_priority js)
unfolding order_by_priority
order_by_priority-In a [] m = m
order_by_priority-In a (j ∷ js) m =
    ground (arith, order_by_priority-In a js, insert_by_priority-In a j (order_by_priority js))

-- No job stands behind one of lower priority.
abbrev pub Descending : List Job → Type 0
Descending [] = Unit
Descending (j ∷ js) = ((a : Job) → In a js → a.priority ≤ℤ j.priority) × Descending js

insert_by_priority-Descending :
    (j : Job) (js : List Job) → Descending js → Descending (insert_by_priority j js)
unfolding insert_by_priority
insert_by_priority-Descending j [] d = (λ a m. elim m [ ], tt)
insert_by_priority-Descending j (k ∷ ks) d = elim (Bool-cases (leb_ℤ k.priority j.priority)) [
  | inl before ↦ rw before (λ a m. behind_first a m before, d)
  | inr behind ↦ rw behind (λ a m. still_behind a m behind, insert_by_priority-Descending j ks d.1)
]
  where
    behind_first :
        (a : Job) → In a (k ∷ ks) → leb_ℤ k.priority j.priority ≡ true → a.priority ≤ℤ j.priority
    behind_first a (inl e) t = rw e (leb_ℤ→le k.priority j.priority t)
    behind_first a (inr later) t = omega (arith, leb_ℤ→le k.priority j.priority t, d.0 a later)

    still_behind :
        (a : Job)
        → In a (insert_by_priority j ks)
        → leb_ℤ k.priority j.priority ≡ false
        → a.priority ≤ℤ k.priority
    still_behind a m t = elim (In-insert_by_priority a j ks m) [
      | inl e ↦ rw e (leb_ℤ_false→le k.priority j.priority t)
      | inr later ↦ d.0 a later
    ]

pub order_by_priority-Descending : (js : List Job) → Descending (order_by_priority js)
unfolding order_by_priority
order_by_priority-Descending [] = tt
order_by_priority-Descending (j ∷ js) =
    insert_by_priority-Descending j (order_by_priority js) (order_by_priority-Descending js)

pub select-Descending : (p : Job → Bool) (js : List Job) → Descending js → Descending (select p js)
unfolding select
select-Descending p [] d = d
select-Descending p (j ∷ js) d = elim (Bool-cases (p j)) [
  | inl kept ↦ rw kept (λ a m. d.0 a (In-select p a js m).0, select-Descending p js d.1)
  | inr dropped ↦ rw dropped (select-Descending p js d.1)
]

module _ (w : Farm) where
  pub first_ready-some :
      (j : Job) (js : List Job) → first_ready w js ≡ some j → In j js × (unmet_dependencies w j ≡ 0)
  unfolding first_ready
  first_ready-some j [] h = absurd (cc)
  first_ready-some j (k ∷ ks) h = ground (arith, first_ready-some j ks)

  pub first_ready-none :
      (a : Job) (js : List Job)
      → first_ready w js ≡ none
      → In a js
      → (unmet_dependencies w a == 0) ≡ false
  unfolding first_ready
  first_ready-none a [] h m = elim m [ ]
  first_ready-none a (k ∷ ks) h m = ground (arith, first_ready-none a ks)

  -- Among jobs in descending order, no job whose dependencies are met has a higher priority.
  pub first_ready-highest :
      (j a : Job) (js : List Job)
      → Descending js
      → first_ready w js ≡ some j
      → In a js
      → unmet_dependencies w a ≡ 0
      → a.priority ≤ℤ j.priority
  unfolding first_ready
  first_ready-highest j a [] d h m met = elim m [ ]
  first_ready-highest j a (k ∷ ks) d h m met = elim (Bool-cases (unmet_dependencies w k == 0)) [
    | inl now ↦ highest_first m (taken now)
    | inr later ↦ elim m [
      | inl e ↦ absurd (ground arith)
      | inr behind ↦ first_ready-highest j a ks d.1 (passed later) behind met
    ]
  ]
    where
      taken : (unmet_dependencies w k == 0) ≡ true → k ≡ j
      taken t = ground arith

      passed : (unmet_dependencies w k == 0) ≡ false → first_ready w ks ≡ some j
      passed t = ground arith

      highest_first : In a (k ∷ ks) → k ≡ j → a.priority ≤ℤ j.priority
      highest_first (inl e) t = rw (e, t) (omega arith)
      highest_first (inr behind) t = rw (← t) (d.0 a behind)
