-- ===== src/Launch/Chain.antt =====
-- The requests of a launch that follow the first one, for any rule about one of them.
use ava_capture.Base.{
  ℕ, String, ◌≡◌, refl, subst, Bool, true, false, Option, none, some, List, [], ◌∷◌, arith, ◌⊎◌,
  inl, inr, if◌then◌else◌,
}
use ava_capture.Base.Effects.Rules.{Contract, outcome_bind, outcome_pure, outcome_if}
use ava_capture.Farm.{Farm, Job, Status, created, pure}
use ava_capture.JobApi.{set_status}
use ava_capture.Launch.{Call, delayed_status, filled, no_changes, server_patch, patch_job}
use ava_capture.Launch.Stored.{Stored, now}

filled-empty {ℓ} : {A : Type ℓ} (xs : List A) → filled xs ≡ false → [] ≡ xs
filled-empty [] e = refl
filled-empty (x ∷ xs) e = cc

-- The job as it is made: `created` where requests follow, and otherwise with the status that was
-- asked for.
abbrev pub with_status : Call → Job → Bool → Job
with_status call base delayed = record base { status = if delayed then created else call.status }

-- The job is stored, and `X` holds of the farm.
abbrev pub Kept : (X : Farm → Type 0) → Option String → Job → List ℕ → List String → Farm → Type 0
Kept X name j ds ts w = Stored name j ds ts w × X w

-- A rule for one request: it ends as `Kept` says, or in `E`.
abbrev pub RequestRule :
    (others : Farm → Farm)
    → (X E : Farm → Type 0) → (name : Option String) → (given : List ℕ) → (j : Job) → Type 0
RequestRule others X E name given j =
    (ds : List ℕ) (ts : List String) (deps : Option (List ℕ)) (tags : Option (List String))
    (s : Option Status)
    → (deps ≡ none) ⊎ (deps ≡ some given)
    → Contract (Kept X name j ds ts)
        (server_patch others j.id (record { dependencies_id = deps; tags = tags; status = s }))
        (λ _. Kept X name (set_status s j) (now deps ds) (now tags ts)) E

module _ (others : Farm → Farm) (X E : Farm → Type 0) (call : Call) (base : Job)
    (name : Option String)
    (step : RequestRule others X E name call.dependency_list (with_status call base true)) where
  give_dependencies :
      (b : Bool)
      → (filled call.dependency_list ≡ true → b ≡ true)
      → Contract
          (Kept X name (with_status call base b) [] [])
          (if filled call.dependency_list
            then server_patch others base.id
                (record no_changes { dependencies_id = some call.dependency_list })
            else pure tt)
          (λ _. Kept X name (with_status call base b) call.dependency_list [])
          E
  give_dependencies b h =
      outcome_if (filled call.dependency_list)
        (λ some_given.
          rw (h some_given) (step [] [] (some call.dependency_list) none none (inr refl)))
        (λ none_given. outcome_pure tt (λ w.
          subst (λ ds. Kept X name (with_status call base b) ds [] w)
            (filled-empty call.dependency_list none_given)))

  give_tags :
      (b : Bool)
      → (filled call.tags ≡ true → b ≡ true)
      → Contract
          (Kept X name (with_status call base b) call.dependency_list [])
          (if filled call.tags
            then server_patch others base.id (record no_changes { tags = some call.tags })
            else pure tt)
          (λ _. Kept X name (with_status call base b) call.dependency_list call.tags)
          E
  give_tags b h =
      outcome_if (filled call.tags)
        (λ some_given.
          rw (h some_given) (step call.dependency_list [] none (some call.tags) none (inl refl)))
        (λ none_given. outcome_pure tt (λ w.
          subst (λ ts. Kept X name (with_status call base b) call.dependency_list ts w)
            (filled-empty call.tags none_given)))

  give_status :
      (b : Bool)
      → Contract
          (Kept X name (with_status call base b) call.dependency_list call.tags)
          (if b
            then server_patch others base.id (record no_changes { status = some call.status })
            else pure tt)
          (λ _. Kept X name (with_status call base false) call.dependency_list call.tags)
          E
  give_status true = step call.dependency_list call.tags none none (some call.status) (inl refl)
  give_status false = outcome_pure tt (λ w h. h)

  pub patch_job-Kept :
      Contract
        (Kept X name (with_status call base (delayed_status call)) [] [])
        (patch_job others call base.id)
        (λ _. Kept X name (with_status call base false) call.dependency_list call.tags)
        E
  unfolding patch_job
  patch_job-Kept = outcome_bind (give_dependencies (delayed_status call) (λ e. rw e refl)) (λ _.
      outcome_bind (give_tags (delayed_status call) (λ e. ground arith))
        (λ _. give_status (delayed_status call)))
