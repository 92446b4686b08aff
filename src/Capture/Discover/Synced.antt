-- ===== src/Capture/Discover/Synced.antt =====
-- The cameras of a capture node after `node_discover`.
use ava_capture.Base.{
  In-append_left, In-append_last, ℕ, ◌==◌, ◌≡◌, refl, sym, ap, subst, ◌∙◌, ◌+◌, ◌≢◌, ◌↔◌, String,
  str_eq, true, Bool-cases, ◌⊎◌, inl, inr, List, [], ◌∷◌, ◌++◌, In, In-select, select-In, select,
  any_of, any_of→In, contains_text→In, In→contains_text, and_split, arith, ==→eq, ==_refl,
}
use text.Mathlib.TextEquality.{eq_iff}
use ava_capture.Site.{Site, Camera, ok, create_camera, for_each, modify, >>=-ok}
use ava_capture.Capture.Discover.{ensure_camera, new_camera, is_camera, stays, sync_cameras}

In-append_cases : (c d : Camera) (xs : List Camera) → In c (xs ++ d ∷ []) → In c xs ⊎ (c ≡ d)
In-append_cases c d [] m = elim m [ inl e ↦ inr e | inr none ↦ inr (absurd none) ]
In-append_cases c d (x ∷ xs) m = elim m [
  | inl e ↦ inl (inl e)
  | inr later ↦ elim (In-append_cases c d xs later) [ inl there ↦ inl (inr there) | inr e ↦ inr e ]
]

-- The node has a camera with this id.
abbrev pub Has : (node : ℕ) → String → List Camera → Type 0
Has node u cams = (c : Camera) × In c cams × (c.node ≡ node) × (c.unique_id ≡ u)

-- What `ensure_camera` does, and the loop on it.
abbrev Ensured : (node : ℕ) → List String → (before after : List Camera) → Type 0
Ensured node listed before after =
    ((u : String) → In u listed → Has node u after)
    × ((c : Camera) → In c before → In c after)
    × ((c : Camera) → In c after → In c before ⊎ (c.node ≡ node))

ensure_one :
    (node : ℕ) (u : String) (w : Site)
    → (cams : List Camera) × (k : ℕ) × (ensure_camera node u w
        ≡ (ok tt, record w { cameras = cams; next_camera = k }))
      × Ensured node (u ∷ []) w.cameras cams
unfolding ensure_camera create_camera
ensure_one node u w = elim (Bool-cases (any_of (is_camera node u) w.cameras)) [
  | inl there ↦ (
    w.cameras,
    w.next_camera,
    rw there refl,
    (λ v m. found v m (any_of→In (is_camera node u) w.cameras there), (λ _ m. m), (λ _ m. inl m)),
  )
  | inr missing ↦ (
    w.cameras ++ made ∷ [],
    w.next_camera + 1,
    rw missing refl,
    (
      (λ v m. elim m [
        | inl e ↦ (made, In-append_last made w.cameras, refl, sym e)
        | inr none ↦ absurd none
      ]),
      (λ c m. In-append_left c w.cameras (made ∷ []) m),
      (λ c m. elim (In-append_cases c made w.cameras m) [
        | inl old ↦ inl old
        | inr e ↦ inr (ap (λ (d : Camera). d.node) e)
      ]),
    ),
  )
]
  where
    made : Camera
    made = record (new_camera node u) { id = w.next_camera }

    found :
        (v : String)
        → In v (u ∷ [])
        → (c : Camera) × In c w.cameras × (is_camera node u c ≡ true)
        → Has node v w.cameras
    found v (inl e) (c, m, hit) =
        let (same_node, same_id) = and_split (c.node == node) (str_eq c.unique_id u) hit in
        (c, m, ==→eq c.node node same_node, (eq_iff c.unique_id u).0 same_id ∙ sym e)
    found v (inr none) h = absurd none

ensure_all :
    (node : ℕ) (listed : List String) (w : Site)
    → (cams : List Camera) × (k : ℕ) × (for_each (ensure_camera node) listed w
        ≡ (ok tt, record w { cameras = cams; next_camera = k }))
      × Ensured node listed w.cameras cams
unfolding for_each
ensure_all node [] w =
    (w.cameras, w.next_camera, refl, ((λ _ m. absurd m), (λ _ m. m), (λ _ m. inl m)))
ensure_all node (u ∷ listed) w =
    let (cams, k, e, (has, kept, new)) = ensure_one node u w in
    let (cams', k', e', (has', kept', new')) =
      ensure_all node listed (record w { cameras = cams; next_camera = k }) in
    (
      cams',
      k',
      >>=-ok (ensure_camera node u) (λ _. for_each (ensure_camera node) listed) w e ∙ e',
      (
        (λ v m. elim m [
          | inl same ↦ let (c, there, here, id) = has v (inl same) in (c, kept' c there, here, id)
          | inr later ↦ has' v later
        ]),
        (λ c m. kept' c (kept c m)),
        (λ c m. elim (new' c m) [ inl earlier ↦ new c earlier | inr ours ↦ inr ours ]),
      ),
    )

-- What is left of the cameras.
abbrev pub Synced : (node : ℕ) → List String → (before after : List Camera) → Type 0
Synced node listed before after =
    ((u : String) → Has node u after ↔ In u listed)
    × ((c : Camera) → In c before → c.node ≢ node ⊎ In c.unique_id listed → In c after)
    × ((c : Camera) → In c after → c.node ≢ node → In c before)

stays_here :
    (node : ℕ) (listed : List String) (c : Camera)
    → c.node ≡ node
    → stays node listed c ≡ true
    → In c.unique_id listed
stays_here node listed c here h =
    let local : (c.node == node) ≡ true =
      subst (λ k. (k == node) ≡ true) (sym here) (==_refl node) in
    contains_text→In listed c.unique_id (ground (arith, local, h))

stays_if :
    (node : ℕ) (listed : List String) (c : Camera)
    → c.node ≢ node ⊎ In c.unique_id listed
    → stays node listed c ≡ true
stays_if node listed c (inl other) = elim (Bool-cases (c.node == node)) [
  | inl same ↦ absurd (other (==→eq c.node node same))
  | inr differs ↦ ground (arith, differs)
]
stays_if node listed c (inr m) = rw (In→contains_text listed c.unique_id m) (ground arith)

-- Syncing the cameras of a node with a list returns. After it the ids of the node's cameras are those
-- in the list, the cameras of other nodes are those that were there, and a camera that was there with
-- an id in the list is there with all its settings.
pub sync_cameras-Synced :
    (node : ℕ) (listed : List String) (w : Site)
    → (cams : List Camera) × (k : ℕ) × (sync_cameras node listed w
        ≡ (ok tt, record w { cameras = cams; next_camera = k }))
      × Synced node listed w.cameras cams
unfolding sync_cameras
sync_cameras-Synced node listed w =
    let (cams, k, e, (has, kept, new)) = ensure_all node listed w in
    (
      select (stays node listed) cams,
      k,
      >>=-ok (for_each (ensure_camera node) listed)
          (λ _. modify λ w'. record w' { cameras = select (stays node listed) w'.cameras }) w e,
      (
        (λ u. (
          (λ (c, m, here, id).
              subst (λ v. In v listed) id
                (stays_here node listed c here (In-select (stays node listed) c cams m).1)),
          (λ m.
              let (c, there, here, id) = has u m in
              (
                c,
                select-In (stays node listed) c cams there
                    (stays_if node listed c (inr (subst (λ v. In v listed) (sym id) m))),
                here,
                id,
              )),
        )),
        (λ c m why. select-In (stays node listed) c cams (kept c m) (stays_if node listed c why)),
        (λ c m other. elim (new c (In-select (stays node listed) c cams m).0) [
          | inl old ↦ old
          | inr ours ↦ absurd (other ours)
        ]),
      ),
    )
