-- ===== src/Archive/Deletion/Covered.antt =====
-- The collection of files in `post_delete_takes`, and the recordings of the takes.
use text.Mathlib.TextEquality.{eq_iff}
use ava_capture.Base.{
  In-append_left, In-append_right, ◌==◌, ◌≡◌, ◌≢◌, refl, sym, ap, subst, ◌∙◌, String, str_eq, Bool,
  true, Bool-cases, Option, Option-cases, none, some, List, [], ◌∷◌, ◌++◌, In, inl, inr, ◌⊎◌,
  select, select-In, In-select, ==_refl, arith, ◌↔◌,
}
use ava_capture.Site.{Site, Take, Recording, ok, or_raise, attribute_error, >>=-ok, pure}
use ava_capture.Archive.{Paths}
use ava_capture.Archive.Files.{
  split, extend_at, cameras_of, order_by_unique_id, insert_by_unique_id,
}
use ava_capture.Archive.Deletion.{Remote, files_on, add_files, add_cameras, add_takes}

-- A file is among those of a machine.
abbrev Covers : (machine file : String) → Remote → Type 0
Covers machine file remote = (files : List String) × In (machine, files) remote × In file files

extend_at-kept :
    (machine file key : String) (values : List String) (remote : Remote)
    → Covers machine file remote
    → Covers machine file (extend_at key values remote)
unfolding extend_at
extend_at-kept machine file key values [] (files, m, i) = elim m [ ]
extend_at-kept machine file key values ((k, vs) ∷ rest) (files, m, i) =
    elim (Bool-cases (str_eq k key)) [
      | inl same ↦ rw same (elim m [
        | inl e ↦ (
          vs ++ values,
          inl (ap (λ (p : String × List String). (p.0, vs ++ values)) e),
          In-append_left file vs values
              (subst (In file) (ap (λ (p : String × List String). p.1) e) i),
        )
        | inr later ↦ (files, inr later, i)
      ])
      | inr other ↦ rw other (elim m [
        | inl e ↦ (files, inl e, i)
        | inr later ↦
            let (files', m', i') = extend_at-kept machine file key values rest (files, later, i) in
            (files', inr m', i')
      ])
    ]

extend_at-new :
    (file key : String) (values : List String) (remote : Remote)
    → In file values
    → Covers key file (extend_at key values remote)
unfolding extend_at
extend_at-new file key values [] i = (values, inl refl, i)
extend_at-new file key values ((k, vs) ∷ rest) i = elim (Bool-cases (str_eq k key)) [
  | inl same ↦ rw same (
    vs ++ values,
    inl (ap (λ x. (x, vs ++ values)) (sym ((eq_iff k key).0 same))),
    In-append_right file vs values i,
  )
  | inr other ↦
      rw other (let (files, m, i') = extend_at-new file key values rest i in (files, inr m, i'))
]

files_on-In :
    (paths : Paths) (export_path : Option String) (file : String) (files : List String)
    → In file files
    → In file (files_on paths export_path files)
files_on-In paths none file files i = i
files_on-In paths (some folder) file files i = In-append_left file files _ i

abbrev or_first : String → Option String → String
or_first s none = s
or_first s (some t) = t

-- The files of a camera are covered.
abbrev CameraCovered : Remote → Recording → Type 0
CameraCovered remote cam =
    (text : String)
    → cam.all_files ≡ some text
    → (file : String) → In file (split text)
    → Covers cam.machine_name file remote

-- What one collection has, a later one has.
abbrev Grows : (before after : Remote) → Type 0
Grows before after =
    (machine file : String) → Covers machine file before → Covers machine file after

module _ (paths : Paths) (w : Site) where
  add_files-covered :
      (take : Take) (remote : Remote) (cam : Recording)
      → cam.all_files ≢ none
      → (remote' : Remote) × (add_files paths take remote cam w ≡ (ok remote', w))
        × Grows remote remote'
        × CameraCovered remote' cam
  unfolding add_files
  add_files-covered take remote cam there = elim (Option-cases cam.all_files) [
    | inl missing ↦ absurd (there missing)
    | inr (text, e) ↦ (
      extend_at cam.machine_name (files_on paths take.export_path (split text)) remote,
      >>=-ok (or_raise cam.all_files attribute_error)
          (λ files.
            pure
              (extend_at cam.machine_name (files_on paths take.export_path (split files)) remote))
          w (ap (λ o. or_raise o attribute_error w) e),
      (λ machine file. extend_at-kept machine file cam.machine_name _ remote),
      (λ text' e' file i. extend_at-new file cam.machine_name _ remote (
          files_on-In paths take.export_path file (split text)
            (subst (λ t. In file (split t)) (some_injective (sym e' ∙ e)) i))),
    )
  ]
    where
      some_injective : {s t : String} → some s ≡ some t → s ≡ t
      some_injective {s = s} e = ap (or_first s) e

  add_cameras-covered :
      (take : Take) (remote : Remote) (cams : List Recording)
      → ((cam : Recording) → In cam cams → cam.all_files ≢ none)
      → (remote' : Remote) × (add_cameras paths take remote cams w ≡ (ok remote', w))
        × Grows remote remote'
        × ((cam : Recording) → In cam cams → CameraCovered remote' cam)
  unfolding add_cameras
  add_cameras-covered take remote [] there = (remote, refl, (λ _ _ c. c), (λ _ m. absurd m))
  add_cameras-covered take remote (cam ∷ cams) there =
      let (r₁, e₁, grows₁, covered₁) = add_files-covered take remote cam (there cam (inl refl)) in
      let (r₂, e₂, grows₂, covered₂) = add_cameras-covered take r₁ cams (λ c m. there c (inr m)) in
      (
        r₂,
        >>=-ok (add_files paths take remote cam) (λ r. add_cameras paths take r cams) w e₁ ∙ e₂,
        (λ machine file c. grows₂ machine file (grows₁ machine file c)),
        (λ c m. elim m [
          | inl same ↦ (λ text e file i.
              grows₂ c.machine_name file
                (subst (CameraCovered r₁) (sym same) covered₁ text e file i))
          | inr later ↦ covered₂ c later
        ]),
      )

  -- The order by id has the same rows.
  In-insert_by_unique_id :
      (le : String → String → Bool) (r x : Recording) (xs : List Recording)
      → In x (insert_by_unique_id le r xs)
      → (x ≡ r) ⊎ In x xs
  unfolding insert_by_unique_id
  In-insert_by_unique_id le r x [] m = m
  In-insert_by_unique_id le r x (y ∷ ys) m = ground (arith, In-insert_by_unique_id le r x ys)

  insert_by_unique_id-In :
      (le : String → String → Bool) (r x : Recording) (xs : List Recording)
      → (x ≡ r) ⊎ In x xs
      → In x (insert_by_unique_id le r xs)
  unfolding insert_by_unique_id
  insert_by_unique_id-In le r x [] m = m
  insert_by_unique_id-In le r x (y ∷ ys) m = ground (arith, insert_by_unique_id-In le r x ys)

  In-order_by_unique_id :
      (le : String → String → Bool) (x : Recording) (xs : List Recording)
      → In x (order_by_unique_id le xs) ↔ In x xs
  unfolding order_by_unique_id
  In-order_by_unique_id le x [] = ((λ m. m), (λ m. m))
  In-order_by_unique_id le x (y ∷ ys) =
      let (there, back) = In-order_by_unique_id le x ys in
      (
        (λ m. elim (In-insert_by_unique_id le y x (order_by_unique_id le ys) m) [
          | inl e ↦ inl e
          | inr later ↦ inr (there later)
        ]),
        (λ m.
            insert_by_unique_id-In le y x (order_by_unique_id le ys)
              (elim m [ inl e ↦ inl e | inr later ↦ inr (back later) ])),
      )

  pub add_takes-covered :
      (remote : Remote) (takes : List Take)
      → ((cam : Recording) → In cam w.recordings → cam.all_files ≢ none)
      → (remote' : Remote) × (add_takes paths remote takes w ≡ (ok remote', w))
        × Grows remote remote'
        × ((take : Take)
            → In take takes
            → (cam : Recording) → In cam w.recordings
            → cam.take ≡ take.id
            → CameraCovered remote' cam)
  unfolding add_takes cameras_of
  add_takes-covered remote [] there = (remote, refl, (λ _ _ c. c), (λ _ m. absurd m))
  add_takes-covered remote (take ∷ takes) there =
      let mine = select (λ (r : Recording). r.take == take.id) w.recordings in
      let (r₁, e₁, grows₁, covered₁) =
        add_cameras-covered take remote (order_by_unique_id paths.text_le mine) (λ cam m.
          there cam
            (In-select (λ (r : Recording). r.take == take.id) cam w.recordings
              ((In-order_by_unique_id paths.text_le cam mine).0 m)).0) in
      let (r₂, e₂, grows₂, covered₂) = add_takes-covered r₁ takes there in
      (
        r₂,
        >>=-ok (add_cameras paths take remote (order_by_unique_id paths.text_le mine))
              (λ r. add_takes paths r takes) w e₁
            ∙ e₂,
        (λ machine file c. grows₂ machine file (grows₁ machine file c)),
        (λ t m cam there' ours. elim m [
          | inl same ↦ (λ text e file i. grows₂ cam.machine_name file (
              covered₁ cam
                ((In-order_by_unique_id paths.text_le cam mine).1 (
                  select-In (λ (r : Recording). r.take == take.id) cam w.recordings there'
                    (subst (λ k. (cam.take == k) ≡ true) (ours ∙ ap (λ (t' : Take). t'.id) same)
                      (==_refl cam.take))))
                text e file i))
          | inr later ↦ covered₂ t later cam there' ours
        ]),
      )
