-- ===== src/Client/Held.antt =====
-- A job client loses no job, whatever its threads do between the statements of `phone_home`.
use mathlib.Core.Option.{some-injective}
use ava_capture.Base.{
  ℕ, String, ◌≡◌, ◌==◌, refl, sym, subst, if◌then◌else◌, Bool, true, false, not, ◌||◌, ◌⊎◌, inl,
  inr, Option, none, some, List, [], ◌∷◌, ◌++◌, arith, In, In-select, select, any_of, contains,
  contains→In, map, Bool-cases, ==→eq,
}
use ava_capture.Base.Table.{save}
use ava_capture.Discover.Report.{JobData}
use ava_capture.Client.{
  JobInstance, Container, entry_key, holds, hear, output_received_from_job, terminate, publish,
  leave, submit_job, new_instance, terminate_job, purge,
}
use ava_capture.Client.Steps.{
  Step, hears, publishes, leaves, Steps, done, step, Run, start, thread, submit, kill, answered,
}

module _ (i : ℕ) where
  holds-save :
      (k : ℕ) (j : JobInstance) (d : List (ℕ × JobInstance))
      → holds (save entry_key (k, j) d) i ≡ (k == i || holds d i)
  unfolding save any_of
  holds-save k j [] = ground arith
  holds-save k j (e ∷ d) = ground (arith, holds-save k j d)

  holds-select :
      (p : ℕ → Bool) (d : List (ℕ × JobInstance))
      → p i ≡ true
      → holds d i ≡ true
      → holds (select (λ e. p e.0) d) i ≡ true
  unfolding select any_of
  holds-select p [] hit h = h
  holds-select p (e ∷ d) hit h = elim (Bool-cases (e.0 == i)) [
    | inl same ↦
        let kept = subst (λ k. p k ≡ true) (sym (==→eq e.0 i same)) hit in rw kept (rw same refl)
    | inr other ↦ elim (Bool-cases (p e.0)) [
      | inl kept ↦ rw kept (rw other (holds-select p d hit (ground arith)))
      | inr gone ↦ rw gone (holds-select p d hit (ground arith))
    ]
  ]

  holds-map :
      (k : ℕ) (f : JobInstance → JobInstance) (d : List (ℕ × JobInstance))
      → holds (map (λ (e : ℕ × JobInstance). if e.0 == k then (e.0, f e.1) else e) d) i ≡ holds d i
  unfolding any_of
  holds-map k f [] = refl
  holds-map k f (e ∷ d) = ground (arith, holds-map k f d)

  holds-append :
      (e : ℕ × JobInstance) (d : List (ℕ × JobInstance))
      → holds (d ++ e ∷ []) i ≡ (holds d i || e.0 == i)
  unfolding any_of
  holds-append e [] = ground arith
  holds-append e (x ∷ d) = ground (arith, holds-append e d)

In-left : (k : ℕ) (xs ys : List ℕ) → In k xs → In k (xs ++ ys)
In-left k [] ys m = elim m [ ]
In-left k (x ∷ xs) ys m = elim m [ inl e ↦ inl e | inr later ↦ inr (In-left k xs ys later) ]

In-right : (k : ℕ) (xs ys : List ℕ) → In k ys → In k (xs ++ ys)
In-right k [] ys m = m
In-right k (x ∷ xs) ys m = inr (In-right k xs ys m)

-- A key is safe: its job is running or finished here, or its result has been acknowledged.
abbrev pub Safe : List ℕ → Container → ℕ → Type 0
Safe a c k = (holds c.running_jobs k ≡ true) ⊎ (holds c.finished_jobs k ≡ true) ⊎ In k a

-- Its job has finished, whether or not it is still listed as running.
abbrev Over : List ℕ → Container → ℕ → Type 0
Over a c k = (holds c.finished_jobs k ≡ true) ⊎ In k a

record Held (s a : List ℕ) (c : Container) : Type 0 where
  kept : (k : ℕ) → In k s → Safe a c k
  over : (k : ℕ) → In k c.published → Over a c k

thread-Held : (s a : List ℕ) (b c : Container) → Step b c → Held s a b → Held s a c
unfolding hear publish leave
thread-Held s a b c (hears k text _) h = record {
  kept = λ i m. elim (h.kept i m) [
    | inl r ↦ inl (rw (holds-map i k (output_received_from_job text) b.running_jobs) r)
    | inr o ↦ inr o
  ];
  over = h.over;
}
thread-Held s a b c (publishes k j _) h = record {
  kept = λ i m. elim (h.kept i m) [
    | inl r ↦ inl r
    | inr (inl f) ↦ inr (inl (added i f))
    | inr (inr o) ↦ inr (inr o)
  ];
  over = λ i m. elim m [
    | inl e ↦ inl (rw (holds-save i k j b.finished_jobs) (rw e (ground arith)))
    | inr older ↦ elim (h.over i older) [ inl f ↦ inl (added i f) | inr o ↦ inr o ]
  ];
}
  where
    added :
        (i : ℕ)
        → holds b.finished_jobs i ≡ true
        → holds (save entry_key (k, j) b.finished_jobs) i ≡ true
    added i f = rw (holds-save i k j b.finished_jobs) (ground arith)
thread-Held s a b c (leaves k _ m) h = record {
  kept = λ i there. elim (Bool-cases (i == k)) [
    | inl same ↦ inr (subst (Over a b) (sym (==→eq i k same)) (h.over k m))
    | inr other ↦ elim (h.kept i there) [
      | inl r ↦ inl (holds-select i (λ n. not (n == k)) b.running_jobs (rw other refl) r)
      | inr o ↦ inr o
    ]
  ];
  over = λ i there. h.over i (In-select (λ n. not (n == k)) i b.published there).0;
}

submit-Held :
    (s a : List ℕ) (b c : Container) (refusal : String → Option String) (d : JobData)
    → submit_job refusal d b ≡ some c
    → Held s a b
    → Held (d.job_id ∷ s) a c
unfolding submit_job
submit-Held s a b c refusal d taken h = go (holds b.running_jobs d.job_id) taken
  where
    entry : ℕ × JobInstance
    entry = (d.job_id, new_instance (refusal d.job_class) d)

    after : Container
    after = record b { running_jobs = b.running_jobs ++ entry ∷ [] }

    go : (t : Bool) → (if t then none else some after) ≡ some c → Held (d.job_id ∷ s) a c
    go true e = absurd (cc)
    go false e = subst (Held (d.job_id ∷ s) a) (some-injective after c e) (record {
      kept = λ i m. elim m [
        | inl own ↦ inl (rw (holds-append i entry b.running_jobs) (rw own (ground arith)))
        | inr older ↦ elim (h.kept i older) [
          | inl r ↦ inl (rw (holds-append i entry b.running_jobs) (ground arith))
          | inr o ↦ inr o
        ]
      ];
      over = h.over;
    })

purge-Held : (s a keys : List ℕ) (b : Container) → Held s a b → Held s (keys ++ a) (purge keys b)
unfolding purge
purge-Held s a keys b h = record {
  kept = λ i m. elim (h.kept i m) [ inl r ↦ inl r | inr o ↦ inr (ended i o) ];
  over = λ i m. ended i (h.over i m);
}
  where
    ended : (i : ℕ) → Over a b i → Over (keys ++ a) (purge keys b) i
    ended i (inr o) = inr (In-right i keys a o)
    ended i (inl f) = elim (Bool-cases (contains keys i)) [
      | inl reported ↦ inr (In-left i keys a (contains→In keys i reported))
      | inr later ↦
          inl (holds-select i (λ n. not (contains keys n)) b.finished_jobs (rw later refl) f)
    ]

run-Held : (s a : List ℕ) (c : Container) → Run s a c → Held s a c
unfolding terminate_job
run-Held s a c start = record { kept = λ i m. elim m [ ]; over = λ i m. elim m [ ] }
run-Held s a c (thread _ _ b _ r e) = thread-Held s a b c e (run-Held s a b r)
run-Held _ a c (submit s _ b _ refusal d r e) = submit-Held s a b c refusal d e (run-Held s a b r)
run-Held s a _ (kill _ _ b k r) =
    let h = run-Held s a b r in
    record {
      kept = λ i m. elim (h.kept i m) [
        | inl t ↦ inl (rw (holds-map i k terminate b.running_jobs) t)
        | inr o ↦ inr o
      ];
      over = h.over;
    }
run-Held s _ _ (answered _ a b keys r _) = purge-Held s a keys b (run-Held s a b r)

-- Threads only add to the finished jobs.
finished-Steps :
    (b c : Container) (i : ℕ)
    → Steps b c
    → holds b.finished_jobs i ≡ true
    → holds c.finished_jobs i ≡ true
unfolding hear publish leave
finished-Steps b c i (done _) f = f
finished-Steps b c i (step _ _ _ (hears k text _) more) f = finished-Steps _ c i more f
finished-Steps b c i (step _ _ _ (publishes k j _) more) f =
    finished-Steps _ c i more (rw (holds-save i k j b.finished_jobs) (ground arith))
finished-Steps b c i (step _ _ _ (leaves k _ m) more) f = finished-Steps _ c i more f

-- In every run of a client, each job that it took on is in its next report: `running_jobs` is read
-- first, its threads go on, and `finished_jobs` is read then. A job that is in neither list had its
-- result acknowledged before.
pub report_covers :
    (s a : List ℕ) (b c : Container) (k : ℕ)
    → Run s a b
    → Steps b c
    → In k s
    → (holds b.running_jobs k ≡ true) ⊎ (holds c.finished_jobs k ≡ true) ⊎ In k a
report_covers s a b c k run between m = elim ((run-Held s a b run).kept k m) [
  | inl r ↦ inl r
  | inr (inl f) ↦ inr (inl (finished-Steps b c k between f))
  | inr (inr o) ↦ inr (inr o)
]
