-- ===== src/Tests/ViewRuns.antt =====
-- The output of a job, and a machine that is asked to restart.
use ava_capture.Base.{if◌then◌else◌, inl, ◌==◌, ◌≡◌, refl, true, none, some, [], ◌∷◌, length, arith}
use ava_capture.Base.Int.{pos}
use ava_capture.Base.Table.{find}
use ava_capture.Farm.{Farm, User, running, ok}
use ava_capture.Output.{LogRenderer, append_output, get_output, output, content}
use ava_capture.Output.Polling.{get_output-append_output}
use ava_capture.Nodes.{post_reload_client}
use ava_capture.Nodes.Reload.{Asked, post_reload_client-Asked}
use ava_capture.Tests.Samples.{env, job, machine, farm}

abbrev logged : Farm
logged = let w = farm (job 5 none running ∷ []) in record w { outputs = (5, 104 ∷ 105 ∷ []) ∷ [] }

-- A renderer that fails on an empty log.
abbrev sample_renderer : LogRenderer
sample_renderer = record {
  convert = λ bytes. if length bytes == 0 then none else some "<b>!</b>";
  as_text = λ bytes. some "";
}

get_output-append_output_example :
    let (r, w') = append_output 5 (33 ∷ 10 ∷ []) logged in
    (r ≡ ok 200)
    × (get_output sample_renderer 5 (pos (length (content 5 logged))) (pos 1024) w'
        ≡ (ok (output "<b>!</b>" 2 running), w'))
unfolding find
get_output-append_output_example =
    get_output-append_output sample_renderer 5 (33 ∷ 10 ∷ []) "<b>!</b>" 1024 (job 5 none running)
      logged refl (omega arith) (inl refl)

abbrev root : User
root = record { username = "root"; is_superuser = true }

post_reload_client-Asked_example :
    Asked env machine logged.nodes (post_reload_client env root (some (pos 1)) logged)
unfolding find
post_reload_client-Asked_example =
    post_reload_client-Asked env root logged 1 machine "none" refl refl refl
