-- ===== src/Archive/Deletion/Complete.antt =====
-- `post_delete_takes` as a whole: what becomes of the takes and of their files.
use ava_capture.Base.{
  In-append_left, In-append_last, ◌⊎◌, Bool, Option, if◌then◌else◌, ℕ, ◌≡◌, ◌≢◌, refl, sym, ap,
  subst, ◌∙◌, String, true, false, not, Option-cases, none, some, List, [], ◌∷◌, ◌++◌, In, inl, inr,
  contains, select, select-In, In-select, arith, ◌+◌,
}
use ava_capture.Farm.{Env, User, Job, Node, Farm, ready, Result, create_job, create_node, new_node}
use ava_capture.Requests.{new_job}
use ava_capture.Discover.Machine.{make_sure_node_exists, find_machine, first_by_name}
use ava_capture.Site.{
  Site, Task, Take, Recording, ok, for_each, on_farm, >>=-ok, ◌>>=◌, ◌>>◌, pure, modify,
}
use ava_capture.Archive.{Paths, for_superuser}
use ava_capture.Archive.Files.{split}
use ava_capture.Archive.Deletion.{
  Remote, add_takes, delete_takes, delete_files, remove_takes, listed_takes, post_delete_takes,
}
use ava_capture.Archive.Deletion.Covered.{add_takes-covered}

some_node : {a b : Node} → some a ≡ some b → a ≡ b
some_node e = cc

module _ (env : Env) (dumps : List String → String → String) (user : User) where
  -- A row of the machine of this name, or of one that the database takes for it.
  abbrev pub IsRowOf : (machine : String) → Node → Type 0
  IsRowOf machine n = (n.machine_name ≡ machine) ⊎ (env.same_name n.machine_name machine ≡ true)

  -- The job is for this machine.
  abbrev pub IsOn : (machine : String) → Job → List Node → Type 0
  IsOn machine j nodes = (n : Node) × In n nodes × IsRowOf machine n × (j.node ≡ some n.id)

  -- A job for the machine, ready, that deletes these files.
  abbrev pub IsAsked : String × List String → Farm → Type 0
  IsAsked entry f =
      (j : Job) × In j f.jobs
      × (j.job_class ≡ "jobs.archive.DeleteFiles")
      × (j.params ≡ some (dumps entry.1 entry.0))
      × (j.status ≡ ready)
      × IsOn entry.0 j f.nodes

  -- Jobs and machines are only added.
  abbrev Grows : (before after : Farm) → Type 0
  Grows before after =
      ((j : Job) → In j before.jobs → In j after.jobs)
      × ((n : Node) → In n before.nodes → In n after.nodes)

  IsAsked-Grows :
      (entry : String × List String) (before after : Farm)
      → Grows before after
      → IsAsked entry before
      → IsAsked entry after
  IsAsked-Grows entry before after (jobs, nodes)
        (j, m, class, params, status, (n, there, row, on)) =
      (j, jobs j m, class, params, status, (n, nodes n there, row, on))

  first_by_name-In : (n : Node) (nodes : List Node) → first_by_name env nodes ≡ some n → In n nodes
  unfolding first_by_name
  first_by_name-In n [] e = absurd (cc)
  first_by_name-In n (x ∷ xs) e =
      by_rest (first_by_name env xs) (λ found. first_by_name-In n xs found) e
    where
      chosen :
          (b : Bool) (m : Node)
          → (some m ≡ some n → In n xs)
          → (if b then some x else some m) ≡ some n
          → In n (x ∷ xs)
      chosen true m later e = inl (sym (some_node e))
      chosen false m later e = inr (later e)

      by_rest :
          (o : Option Node)
          → (o ≡ some n → In n xs)
          → elim o [
            | none ↦ some x
            | some m ↦ if env.name_le x.machine_name m.machine_name then some x else some m
          ]
            ≡ some n
          → In n (x ∷ xs)
      by_rest none later e = inl (sym (some_node e))
      by_rest (some m) later e = chosen (env.name_le x.machine_name m.machine_name) m later e

  find_machine-In :
      (machine : String) (n : Node) (nodes : List Node)
      → find_machine env machine nodes ≡ some n
      → In n nodes × (env.same_name n.machine_name machine ≡ true)
  unfolding find_machine
  find_machine-In machine n nodes known =
      In-select (λ m. env.same_name m.machine_name machine) n nodes
        (first_by_name-In n (select (λ m. env.same_name m.machine_name machine) nodes) known)

  create_node-ok :
      (machine : String) (f : Farm)
      → (n : Node) × (f' : Farm) × (create_node env (new_node env "0.0.0.0" machine) f ≡ (ok n, f'))
        × (f'.jobs ≡ f.jobs)
        × Grows f f'
        × In n f'.nodes
        × IsRowOf machine n
  unfolding create_node new_node
  create_node-ok machine f = (
    _,
    _,
    refl,
    refl,
    ((λ j m. m), (λ n m. In-append_left n f.nodes _ m)),
    In-append_last _ f.nodes,
    inl refl,
  )

  make_sure_node_exists-ok :
      (machine : String) (f : Farm)
      → (n : Node) × (f' : Farm) × (make_sure_node_exists env machine f ≡ (ok n, f'))
        × (f'.jobs ≡ f.jobs)
        × Grows f f'
        × In n f'.nodes
        × IsRowOf machine n
  unfolding make_sure_node_exists
  make_sure_node_exists-ok machine f = elim (Option-cases (find_machine env machine f.nodes)) [
    | inl unknown ↦
        let (n, f', e, same, grows, there, row) = create_node-ok machine f in
        (n, f', rw (unknown, make_sure_node_exists) e, same, grows, there, row)
    | inr (n, known) ↦
        let (there, row) = find_machine-In machine n f.nodes known in
        (
          n,
          f,
          rw (known, make_sure_node_exists) refl,
          refl,
          ((λ _ m. m), (λ _ m. m)),
          there,
          inr row,
        )
  ]

  delete_files-IsAsked :
      (entry : String × List String) (w : Site)
      → (w' : Site) × (delete_files env dumps user entry w ≡ (ok tt, w'))
        × (w'.takes ≡ w.takes)
        × Grows w.farm w'.farm
        × IsAsked entry w'.farm
  unfolding delete_files on_farm create_job new_job
  delete_files-IsAsked (machine, files) w =
      let (n, f, e, same, (_, nodes), there, row) = make_sure_node_exists-ok machine w.farm in
      (
        record w { farm = record f { jobs = f.jobs ++ made n f ∷ []; next_job = f.next_job + 1 } },
        >>=-ok (on_farm (make_sure_node_exists env machine))
            (λ (node : Node). on_farm (create_job (asked node)) >>= λ _. pure tt) w
            (ap (λ (p : Result Node × Farm). (p.0, record w { farm = p.1 })) e),
        refl,
        ((λ j m. In-append_left j f.jobs _ (subst (In j) (sym same) m)), nodes),
        (made n f, In-append_last (made n f) f.jobs, refl, refl, refl, (n, there, row, refl)),
      )
    where
      asked : Node → Job
      asked node =
          record (new_job "jobs.archive.DeleteFiles" user.username (some (dumps files machine))) {
            status = ready;
            node = some node.id;
          }

      made : Node → Farm → Job
      made node f = record (asked node) { id = f.next_job }

  for_each-IsAsked :
      (entries : Remote) (w : Site)
      → (w' : Site) × (for_each (delete_files env dumps user) entries w ≡ (ok tt, w'))
        × (w'.takes ≡ w.takes)
        × Grows w.farm w'.farm
        × ((entry : String × List String) → In entry entries → IsAsked entry w'.farm)
  unfolding for_each
  for_each-IsAsked [] w = (w, refl, refl, ((λ _ m. m), (λ _ m. m)), (λ _ m. absurd m))
  for_each-IsAsked (entry ∷ entries) w =
      let (w₁, e₁, takes₁, (jobs₁, nodes₁), asked₁) = delete_files-IsAsked entry w in
      let (w₂, e₂, takes₂, (jobs₂, nodes₂), asked₂) = for_each-IsAsked entries w₁ in
      (
        w₂,
        >>=-ok (delete_files env dumps user entry)
              (λ _. for_each (delete_files env dumps user) entries) w e₁
            ∙ e₂,
        takes₂ ∙ takes₁,
        ((λ i there. jobs₂ i (jobs₁ i there)), (λ i there. nodes₂ i (nodes₁ i there))),
        (λ other there. elim there [
          | inl same ↦
              subst (λ x. IsAsked x w₂.farm) (sym same)
                (IsAsked-Grows entry w₁.farm w₂.farm (jobs₂, nodes₂) asked₁)
          | inr later ↦ asked₂ other later
        ]),
      )

for_superuser-granted :
    (user : User) (view : Task ℕ) (w : Site)
    → user.is_superuser ≡ true
    → for_superuser user view w ≡ view w
unfolding for_superuser
for_superuser-granted user view w h = rw h refl

-- A superuser's request to delete takes returns 200, where every recording has its list of files. None
-- of the listed takes is left, and for each file of each recording of a listed take there is a job,
-- ready, for the machine of the recording, that deletes files with it among them.
pub post_delete_takes_complete :
    (env : Env) (paths : Paths) (dumps : List String → String → String) (user : User) (ids : List ℕ)
    (w : Site)
    → user.is_superuser ≡ true
    → ((cam : Recording) → In cam w.recordings → cam.all_files ≢ none)
    → (w' : Site) × (post_delete_takes env paths dumps user (some ids) w ≡ (ok 200, w'))
      × ((take : Take) → In take w'.takes → contains ids take.id ≡ false)
      × ((take : Take) (cam : Recording) (text file : String)
          → In take w.takes
          → contains ids take.id ≡ true
          → In cam w.recordings
          → cam.take ≡ take.id
          → cam.all_files ≡ some text
          → In file (split text)
          → (files : List String) × In file files
            × IsAsked env dumps user (cam.machine_name, files) w'.farm)
unfolding post_delete_takes listed_takes remove_takes delete_takes
post_delete_takes_complete env paths dumps user ids w super there =
    let listed = select (λ (t : Take). contains ids t.id) w.takes in
    let (remote, e, _, covered) = add_takes-covered paths w [] listed there in
    let (w', e', takes, _, asked) = for_each-IsAsked env dumps user remote (delete_takes ids w) in
    (
      w',
      for_superuser-granted user (remove_takes env paths dumps user ids) w super
          ∙ >>=-ok (add_takes paths [] listed)
              (λ remote.
                modify (delete_takes ids)
                >> for_each (delete_files env dumps user) remote
                >> pure 200)
              w e
          ∙ >>=-ok (for_each (delete_files env dumps user) remote) (λ _. pure 200)
              (delete_takes ids w) e',
      (λ t m.
          is_out t
            (In-select (λ (u : Take). not (contains ids u.id)) t w.takes (subst (In t) takes m)).1),
      (λ t cam text file m hit there' ours has i.
          let (files, m', i') =
            covered t (select-In (λ (u : Take). contains ids u.id) t w.takes m hit) cam there' ours
              text has file i in
          (files, i', asked (cam.machine_name, files) m')),
    )
  where
    is_out : (t : Take) → not (contains ids t.id) ≡ true → contains ids t.id ≡ false
    is_out t h = ground arith
