-- ===== src/Capture/Takes/Numbering.antt =====
-- The numbers of the takes: what registering a take does to them.
use ava_capture.Base.{
  All-map, ⊤, ℕ, ◌+◌, ◌<◌, ◌==◌, ◌≡◌, ◌≢◌, refl, sym, ap, subst, ◌∙◌, Bool, Bool-cases, Option,
  none, some, List, [], ◌∷◌, ◌++◌, arith, inl, inr, ==→eq, ==_refl, All,
}
use ava_capture.Base.Table.{find, save, find-save, find_self}
use ava_capture.Site.{
  Site, Location, Project, Session, Shot, Take, Triple, triple_bind, triple_keeps, triple_pure,
  triple_lookup, triple_from, does_not_exist, shot_key, project_key, session_key, create_take,
  save_shot, save_location,
}
use ava_capture.Capture.Takes.Reports.{Studio, NodeReport, TakeInfo}
use ava_capture.Capture.Takes.{
  next_take_of, count_on, add_take, take_in, info_of, take_if_chosen, register_new_take,
}
use ava_capture.Capture.Takes.Framing.{SameButRecordings, same_refl, register_nodes-Kept}

-- The shot of a take is there, and its next number is larger.
abbrev pub HasNumber : List Shot → Take → Type 0
HasNumber shots t = (s : Shot) × (find shot_key t.shot shots ≡ some s) × (t.sequence < s.next_take)

-- Two takes of one shot have different numbers.
abbrev Differ : Take → Take → Type 0
Differ t u = t.shot ≡ u.shot → t.sequence ≢ u.sequence

abbrev AllDiffer : List Take → Type 0
AllDiffer [] = ⊤
AllDiffer (t ∷ ts) = All (Differ t) ts × AllDiffer ts

-- The takes of each shot have different numbers below the shot's next one.
abbrev pub IsNumbered : Site → Type 0
IsNumbered w = All (HasNumber w.shots) w.takes × AllDiffer w.takes

All-append :
    {A : Type 0} (P : A → Type 0) (xs : List A) (a : A) → All P xs → P a → All P (xs ++ a ∷ [])
All-append P [] a h last = (last, tt)
All-append P (x ∷ xs) a h last = (h.0, All-append P xs a h.1 last)

AllDiffer-append :
    (ts : List Take) (t : Take) → AllDiffer ts → All (λ u. Differ u t) ts → AllDiffer (ts ++ t ∷ [])
AllDiffer-append [] t h new = (tt, tt)
AllDiffer-append (u ∷ ts) t h new =
    (All-append (Differ u) ts t h.0 new.0, AllDiffer-append ts t h.1 new.1)

abbrev next_of : Option Shot → ℕ
next_of none = 0
next_of (some s) = s.next_take

module _ (shots : List Shot) (shot : Shot) (found : find shot_key shot.id shots ≡ some shot) where
  abbrev counted : Shot
  counted = record shot { next_take = shot.next_take + 1 }

  -- A take that had a number has one after its shot has counted on.
  HasNumber-counted : (t : Take) → HasNumber shots t → HasNumber (save shot_key counted shots) t
  HasNumber-counted t (s, e, below) = elim (Bool-cases (shot.id == t.shot)) [
    | inl same ↦
        let own : find shot_key t.shot shots ≡ some shot =
          subst (λ k. find shot_key k shots ≡ some shot) (==→eq shot.id t.shot same) found in
        let s_is : some s ≡ some shot = sym e ∙ own in
        (counted, find-save shot_key t.shot counted shots ∙ rw same refl, smaller s s_is below)
    | inr other ↦ (s, find-save shot_key t.shot counted shots ∙ rw other e, below)
  ]
    where
      smaller :
          (s : Shot)
          → some s ≡ some shot
          → t.sequence < s.next_take
          → t.sequence < shot.next_take + 1
      smaller s e below = omega (arith, ap next_of e, below)

  -- The next take differs from each take that has a number.
  next_differs :
      (t new : Take)
      → new.shot ≡ shot.id
      → new.sequence ≡ shot.next_take
      → HasNumber shots t
      → Differ t new
  next_differs t new e e' (s, at, below) same equal =
      let own : find shot_key t.shot shots ≡ some shot =
        subst (λ k. find shot_key k shots ≡ some shot) (sym (same ∙ e)) found in
      let s_is : some s ≡ some shot = sym at ∙ own in
      omega (arith, ap next_of s_is, below, equal, e')

  -- The takes of a table stay numbered where the next take of a shot is added and the shot counts on.
  numbered_next :
      (ts : List Take) (new : Take)
      → new.shot ≡ shot.id
      → new.sequence ≡ shot.next_take
      → All (HasNumber shots) ts
      → AllDiffer ts
      → All (HasNumber (save shot_key counted shots)) (ts ++ new ∷ []) × AllDiffer (ts ++ new ∷ [])
  numbered_next ts new e e' have differ = (
    All-append (HasNumber (save shot_key counted shots)) ts new
        (All-map (HasNumber shots) (HasNumber (save shot_key counted shots)) ts HasNumber-counted
          have)
        (counted, fresh, omega (arith, e')),
    AllDiffer-append ts new differ
        (All-map (HasNumber shots) (λ u. Differ u new) ts (λ t. next_differs t new e e') have),
  )
    where
      fresh : find shot_key new.shot (save shot_key counted shots) ≡ some counted
      fresh = find-save shot_key new.shot counted shots ∙ rw (e, ==_refl shot.id) refl

module _ (studio : Studio) (loc : Location) (nodes : List NodeReport)
    (is_burst is_scan : Bool) where
  -- The end of `add_take`, after `register_nodes`.
  count_on-IsNumbered :
      (shot : Shot) (w w₁ : Site) (new take : Take)
      → find shot_key shot.id w.shots ≡ some shot
      → new.shot ≡ shot.id
      → new.sequence ≡ shot.next_take
      → IsNumbered w
      → w₁.takes ≡ w.takes ++ new ∷ []
      → w₁.shots ≡ w.shots
      → Triple (SameButRecordings w₁) (count_on loc shot take) (λ _. IsNumbered)
  unfolding count_on save_shot save_location
  count_on-IsNumbered shot w w₁ new take found e e' (have, differ) takes shots = record {
    at = λ w₂ same.
        rw (same.takes, same.shots, takes, shots)
          (numbered_next w.shots shot found w.takes new e e' have differ);
  }

  -- A take that is added to a shot is numbered, and so are the takes that were there.
  add_take-IsNumbered :
      (k : ℕ) (shot : Shot)
      → Triple
          (λ (w : Site). IsNumbered w × (find shot_key k w.shots ≡ some shot))
          (add_take studio loc shot nodes is_burst is_scan)
          (λ _. IsNumbered)
  unfolding add_take create_take
  add_take-IsNumbered k shot = record {
    at = λ w (h, found).
        let new = record (next_take_of studio shot is_burst is_scan) { id = w.next_take } in
        let w₁ = (create_take (next_take_of studio shot is_burst is_scan) w).1 in
        (triple_bind (triple_keeps (register_nodes-Kept w₁ studio loc.id new none nodes)) (λ _.
            count_on-IsNumbered shot w w₁ new new (find_self shot_key k shot w.shots found) refl
              refl h refl refl)).at
          w₁ (same_refl w₁);
  }

  take_in-IsNumbered :
      (project session shot : ℕ)
      → Triple IsNumbered
          (take_in studio loc project session shot nodes is_burst is_scan)
          (λ _. IsNumbered)
  unfolding take_in
  take_in-IsNumbered project session shot =
      triple_bind (triple_lookup (λ (w : Site). find project_key project w.projects) does_not_exist)
        λ (p : Project).
          triple_bind
            (triple_lookup (λ (w : Site). find session_key session w.sessions) does_not_exist)
            λ (s : Session).
              triple_bind (triple_lookup (λ (w : Site). find shot_key shot w.shots) does_not_exist)
                λ (sh : Shot).
                  triple_bind (triple_from (λ w h. (h.0.0.0, h.1)) (add_take-IsNumbered shot sh))
                    λ (take : Take). triple_pure (info_of p s sh take) (λ _ h. h)

  take_if_chosen-IsNumbered :
      (p s sh : Option ℕ)
      → Triple IsNumbered
          (take_if_chosen studio loc p s sh nodes is_burst is_scan)
          (λ _. IsNumbered)
  unfolding take_if_chosen
  take_if_chosen-IsNumbered none s sh = triple_pure none (λ _ h. h)
  take_if_chosen-IsNumbered (some p) none sh = triple_pure none (λ _ h. h)
  take_if_chosen-IsNumbered (some p) (some s) none = triple_pure none (λ _ h. h)
  take_if_chosen-IsNumbered (some p) (some s) (some sh) =
      triple_bind (take_in-IsNumbered p s sh)
        λ (info : TakeInfo). triple_pure (some info) (λ _ h. h)

  pub register_new_take-IsNumbered :
      Triple IsNumbered (register_new_take studio loc nodes is_burst is_scan) (λ _. IsNumbered)
  unfolding register_new_take
  register_new_take-IsNumbered =
      take_if_chosen-IsNumbered loc.cur_project loc.cur_session loc.cur_shot
