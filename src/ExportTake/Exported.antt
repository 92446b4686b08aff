-- ===== src/ExportTake/Exported.antt =====
-- The outcome of an export.
use ava_capture.Base.{ℕ, ◌≡◌, refl, ap, ◌∙◌, String, true, some, List, [], ◌∷◌, ◌++◌, map, In}
use ava_capture.Farm.{
  Env, Farm, Job, Node, User, ok, err, pure, raise, ◌>>=◌, >>=-ok, for_each, yield_to_children,
}
use ava_capture.JobApi.{Rest, JobFields}
use ava_capture.Launch.{Call, launch_job, yield_to_children_of}
use ava_capture.CopyFiles.{FileList}
use ava_capture.ExportTake.{DumpsCopy, child_launch_info, export_take_job}
use ava_capture.ExportTake.Launches.{CanLaunch, OneEach, OneEach-grows, launch_copy}

append_assoc_jobs : (xs ys zs : List Job) → (xs ++ ys) ++ zs ≡ xs ++ (ys ++ zs)
append_assoc_jobs [] ys zs = refl
append_assoc_jobs (x ∷ xs) ys zs = ap (λ l. x ∷ l) (append_assoc_jobs xs ys zs)

append_nil_jobs : (xs : List Job) → xs ≡ xs ++ []
append_nil_jobs [] = refl
append_nil_jobs (x ∷ xs) = ap (λ l. x ∷ l) (append_nil_jobs xs)

module _ (env : Env) (rest : Rest) (user : User) (others : Farm → Farm) (parent : ℕ)
    (dumps : DumpsCopy) (root : String) (accepted : (f : JobFields) → rest.accepts f ≡ true) where
  launches :
      (items : List (String × FileList)) (w : Farm)
      → CanLaunch parent w
      → (js : List Job) × (w' : Farm) × (for_each
            (λ call. launch_job env rest user others (some parent) call >>= λ _. pure tt)
            (map (child_launch_info dumps root) items)
            w
          ≡ (ok tt, w'))
        × (w'.jobs ≡ w.jobs ++ js)
        × OneEach dumps root parent w'.nodes items js
        × ((n : Node) → In n w.nodes → In n w'.nodes)
  unfolding for_each
  launches [] w can = ([], w, refl, append_nil_jobs w.jobs, tt, λ n m. m)
  launches (i ∷ is) w can =
      let (j, w1, done, jobs, copies, can', grows) =
        launch_copy env rest user others parent dumps root accepted i w can in
      let (js, w', finished, jobs', each, grows') = launches is w1 can' in
      let one =
        λ (call : Call). launch_job env rest user others (some parent) call >>= λ _. pure tt in
      (
        j ∷ js,
        w',
        >>=-ok (one (child_launch_info dumps root i))
              (λ _. for_each one (map (child_launch_info dumps root) is)) w
              (>>=-ok
                (launch_job env rest user others (some parent) (child_launch_info dumps root i))
                (λ _. pure tt) w done)
            ∙ finished,
        jobs' ∙ ap (λ l. l ++ js) jobs ∙ append_assoc_jobs w.jobs (j ∷ []) js,
        (
          (OneEach-grows dumps root parent w1.nodes w'.nodes grows' (i ∷ []) (j ∷ [])
              (copies, tt)).0,
          each,
        ),
        λ n m. grows' n (grows n m),
      )

  -- An export of files of some machines, by a job that is there, where the site accepts the fields
  -- and no name has two machines: it raises `YieldToChildrenException`, and the jobs are those
  -- there were, followed by one for each machine of the list, in its order, ready, a child of the
  -- export, for that machine, that copies its files and deletes them at the source.
  pub export_take_job-OneEach :
      (item : String × FileList) (items : List (String × FileList)) (w : Farm)
      → CanLaunch parent w
      → (js : List Job) × (w' : Farm) × (export_take_job env rest user others
            (some parent)
            dumps
            (record { root_export_path = some root; nodes = some (item ∷ items) })
            w
          ≡ (err yield_to_children, w'))
        × (w'.jobs ≡ w.jobs ++ js)
        × OneEach dumps root parent w'.nodes (item ∷ items) js
  unfolding export_take_job yield_to_children_of
  export_take_job-OneEach item items w can =
      let (js, w', done, jobs, each, _) = launches (item ∷ items) w can in
      (
        js,
        w',
        >>=-ok
            (for_each (λ call. launch_job env rest user others (some parent) call >>= λ _. pure tt)
              (map (child_launch_info dumps root) (item ∷ items)))
            (λ _. raise yield_to_children) w done,
        jobs,
        each,
      )
