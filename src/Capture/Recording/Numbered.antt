-- ===== src/Capture/Recording/Numbered.antt =====
-- The requests that record, and the numbers of the takes.
use ava_capture.Base.{
  ℕ, ◌≡◌, String, str_eq, Bool, true, false, not, ◌||◌, Option, none, some, List, [], ◌∷◌, ◌++◌,
  ◌⊎◌, ◌&&◌, map, inl, inr, All, arith,
}
use ava_capture.Base.Table.{find}
use ava_capture.Base.Int.{ℤ, pos, ltb_ℤ}
use ava_capture.Names.{clean}
use ava_capture.Farm.{User}
use ava_capture.Site.{
  Site, Task, Location, Session, Shot, Take, CaptureNode, ok, Keeps, Keeps-bind, Keeps-gets,
  Keeps-lookup, Keeps-if, Keeps-pure, Keeps-raise, Keeps-for_each, Triple, triple_bind,
  triple_keeps, triple_pure, triple_run, triple_if, does_not_exist, get_session, get_shot,
  get_location, create_shot, save_location, send, for_each, shot_key, session_key, location_key,
  Body, cameras,
}
use ava_capture.Capture.{has_write_access_location_id}
use ava_capture.Capture.Shots.{
  choose_session, needs_shot, add_shot, create_session_shot, new_shot, shot_name_in,
}
use ava_capture.Capture.Takes.Reports.{Studio, NodeReport, CameraReport, TakeInfo}
use ava_capture.Capture.Takes.Numbering.{IsNumbered, HasNumber, register_new_take-IsNumbered}
use ava_capture.Capture.Recording.{
  Reports, RecordRequest, RecordAnswer, summary, at_location, stop_recording, record_single_image,
  post_stop_recording, post_record_single_image, prepare, tell, rotations, rotated, status,
  turn_cameras, take_images, is_scan_of, add_rotation_info_to_cameras, online_nodes, collect,
  burst_of,
}

-- A row that is found is found after another is added.
find-append :
    (k : ℕ) (s new : Shot) (shots : List Shot)
    → find shot_key k shots ≡ some s
    → find shot_key k (shots ++ new ∷ []) ≡ some s
unfolding find
find-append k s new [] h = absurd (cc)
find-append k s new (x ∷ xs) h = ground (arith, find-append k s new xs)

HasNumber-append :
    (shots : List Shot) (new : Shot) (ts : List Take)
    → All (HasNumber shots) ts
    → All (HasNumber (shots ++ new ∷ [])) ts
HasNumber-append shots new [] h = tt
HasNumber-append shots new (t ∷ ts) ((s, found, below), rest) =
    ((s, find-append t.shot s new shots found, below), HasNumber-append shots new ts rest)

create_shot-IsNumbered : (s : Shot) → Keeps IsNumbered (create_shot s)
unfolding create_shot
create_shot-IsNumbered s = record {
  at = λ w (have, differ).
      (HasNumber-append w.shots (record s { id = w.next_shot }) w.takes have, differ);
}

save_location-IsNumbered : (l : Location) → Keeps IsNumbered (save_location l)
unfolding save_location
save_location-IsNumbered l = record { at = λ w h. h }

send-IsNumbered : (ip path : String) (body : Body) → Keeps IsNumbered (send ip path body)
unfolding send
send-IsNumbered ip path body = record { at = λ w h. h }

get_session-IsNumbered : (k : ℕ) → Keeps IsNumbered (get_session k)
get_session-IsNumbered k = Keeps-lookup (λ (w : Site). find session_key k w.sessions) does_not_exist

get_shot-IsNumbered : (k : ℕ) → Keeps IsNumbered (get_shot k)
get_shot-IsNumbered k = Keeps-lookup (λ (w : Site). find shot_key k w.shots) does_not_exist

get_location-IsNumbered : (k : ℕ) → Keeps IsNumbered (get_location k)
get_location-IsNumbered k =
    Keeps-lookup (λ (w : Site). find location_key k w.locations) does_not_exist

choose_session-IsNumbered :
    (loc : Location) (session : Option ℕ) → Keeps IsNumbered (choose_session loc session)
unfolding choose_session
choose_session-IsNumbered loc none = Keeps-pure (loc, false)
choose_session-IsNumbered loc (some k) =
    Keeps-bind (get_session-IsNumbered k)
      λ (s : Session). Keeps-pure (record loc { cur_session = some s.id }, true)

needs_shot-IsNumbered :
    (cur_shot : Option ℕ) (name : String) → Keeps IsNumbered (needs_shot cur_shot name)
unfolding needs_shot
needs_shot-IsNumbered none name = Keeps-pure true
needs_shot-IsNumbered (some k) name =
    Keeps-bind (get_shot-IsNumbered k) λ (s : Shot). Keeps-pure (not (str_eq s.name name))

add_shot-IsNumbered :
    (loc : Location) (cur_session : Option ℕ) (name : String)
    → Keeps IsNumbered (add_shot loc cur_session name)
unfolding add_shot
add_shot-IsNumbered loc none name = Keeps-raise _
add_shot-IsNumbered loc (some session) name =
    Keeps-bind (Keeps-gets (shot_name_in name session)) λ chosen.
      Keeps-bind (create_shot-IsNumbered (new_shot chosen session))
        λ (s : Shot). Keeps-pure (record loc { cur_shot = some s.id })

pub create_session_shot-IsNumbered :
    (loc : Location) (session : Option ℕ) (name : Option String)
    → Keeps IsNumbered (create_session_shot loc session name)
unfolding create_session_shot
create_session_shot-IsNumbered loc session none = Keeps-raise _
create_session_shot-IsNumbered loc session (some given) =
    Keeps-bind (choose_session-IsNumbered loc session) λ (chosen : Location × Bool).
      Keeps-bind (needs_shot-IsNumbered chosen.0.cur_shot (clean given)) λ needed.
        Keeps-bind
          (Keeps-if needed (add_shot-IsNumbered chosen.0 chosen.0.cur_session (clean given))
            (Keeps-pure chosen.0))
          λ (final : Location).
            Keeps-bind
              (Keeps-if (chosen.1 || needed) (save_location-IsNumbered final) (Keeps-pure tt))
              λ _. Keeps-pure final

tell-IsNumbered :
    (path : String) (nodes : List CaptureNode) → Keeps IsNumbered (for_each (tell path) nodes)
tell-IsNumbered path nodes = Keeps-for_each (λ n. send-IsNumbered n.ip_address path _) nodes

prepare-IsNumbered :
    (path : String) (nodes : List CaptureNode) → Keeps IsNumbered (for_each (prepare path) nodes)
unfolding prepare
prepare-IsNumbered path nodes =
    Keeps-for_each
      (λ n.
        Keeps-bind (Keeps-gets (rotations n))
          λ listed. send-IsNumbered n.ip_address path (cameras listed))
      nodes

turn_cameras-IsNumbered :
    (node : NodeReport) (cams : Option (List CameraReport))
    → Keeps IsNumbered (turn_cameras node cams)
unfolding turn_cameras
turn_cameras-IsNumbered node none = Keeps-raise _
turn_cameras-IsNumbered node (some cams) =
    Keeps-bind (Keeps-gets (λ (w : Site). map (rotated node.machine_name w) cams))
      λ turned. Keeps-pure (record node { cameras = some turned })

add_rotation-IsNumbered :
    (nodes : List NodeReport) → Keeps IsNumbered (add_rotation_info_to_cameras nodes)
unfolding add_rotation_info_to_cameras
add_rotation-IsNumbered [] = Keeps-pure []
add_rotation-IsNumbered (node ∷ nodes) =
    Keeps-bind (turn_cameras-IsNumbered node node.cameras) λ (turned : NodeReport).
      Keeps-bind (add_rotation-IsNumbered nodes)
        λ (rest : List NodeReport). Keeps-pure (turned ∷ rest)

take_images-IsNumbered :
    (burst : ℤ) (nodes : List CaptureNode) → Keeps IsNumbered (take_images burst nodes)
unfolding take_images
take_images-IsNumbered burst nodes = Keeps-bind (prepare-IsNumbered _ nodes) λ _.
    Keeps-bind (tell-IsNumbered _ nodes)
      λ _. Keeps-bind (tell-IsNumbered _ nodes) λ _. tell-IsNumbered _ nodes

module _ (studio : Studio) (reports : Reports) where
  stop_recording-IsNumbered :
      (location : ℕ) → Triple IsNumbered (stop_recording studio reports location) (λ _. IsNumbered)
  unfolding stop_recording
  stop_recording-IsNumbered location =
      triple_bind (triple_keeps (get_location-IsNumbered location)) λ (loc : Location).
        triple_bind (triple_keeps (Keeps-gets (online_nodes location))) λ nodes.
          triple_bind (triple_keeps (tell-IsNumbered "all_stop_sync" nodes)) λ _.
            triple_bind (triple_keeps (tell-IsNumbered "all_stop_recording" nodes)) λ _.
              triple_bind (triple_keeps (tell-IsNumbered "resume_preview" nodes)) λ _.
                triple_bind (triple_keeps (add_rotation-IsNumbered (collect reports nodes)))
                  λ (reported : List NodeReport).
                    triple_bind (register_new_take-IsNumbered studio loc reported false false)
                      λ (info : Option TakeInfo). triple_pure (summary reported info) (λ _ h. h)

  record_single_image-IsNumbered :
      (r : RecordRequest) (location : ℕ)
      → Triple IsNumbered (record_single_image studio reports r location) (λ _. IsNumbered)
  unfolding record_single_image
  record_single_image-IsNumbered r location =
      triple_bind (triple_keeps (Keeps-gets (online_nodes location))) λ nodes.
        triple_bind (triple_keeps (take_images-IsNumbered (burst_of r) nodes)) λ _.
          triple_bind (triple_keeps (add_rotation-IsNumbered (collect reports nodes)))
            λ (reported : List NodeReport).
              triple_bind (triple_keeps (get_location-IsNumbered location)) λ (loc : Location).
                triple_bind (triple_keeps (create_session_shot-IsNumbered loc r.session_id r.shot))
                  λ (chosen : Location).
                    triple_bind
                      (register_new_take-IsNumbered studio chosen reported
                        (ltb_ℤ (pos 1) (burst_of r)) (is_scan_of r && ltb_ℤ (pos 1) (burst_of r)))
                      λ (info : Option TakeInfo). triple_pure (summary reported info) (λ _ h. h)

  at_location-IsNumbered :
      (user : User) (location : Option ℕ) (view : ℕ → Task RecordAnswer)
      → ((k : ℕ) → Triple IsNumbered (view k) (λ _. IsNumbered))
      → Triple IsNumbered (at_location user location view) (λ _. IsNumbered)
  unfolding at_location
  at_location-IsNumbered user none view h = triple_keeps (Keeps-raise _)
  at_location-IsNumbered user (some k) view h =
      triple_bind (triple_keeps (Keeps-gets (has_write_access_location_id user k)))
        λ allowed. triple_if (not allowed) (triple_pure (status 403) (λ _ i. i)) (h k)

  -- Where the takes of each shot have different numbers below the shot's next one, they have them
  -- also after `post_record_single_image` or `post_stop_recording` has returned, with the take that it
  -- may have added.
  pub recording-IsNumbered :
      (user : User) (r : RecordRequest) (w w' : Site) (answer : RecordAnswer)
      → IsNumbered w
      → (post_record_single_image studio reports user r w ≡ (ok answer, w'))
        ⊎ (post_stop_recording studio reports user r w ≡ (ok answer, w'))
      → IsNumbered w'
  unfolding post_record_single_image post_stop_recording
  recording-IsNumbered user r w w' answer h (inl e) =
      triple_run IsNumbered (post_record_single_image studio reports user r) (λ _. IsNumbered) w
        (at_location-IsNumbered user r.location (record_single_image studio reports r)
          (record_single_image-IsNumbered r))
        h answer w' e
  recording-IsNumbered user r w w' answer h (inr e) =
      triple_run IsNumbered (post_stop_recording studio reports user r) (λ _. IsNumbered) w
        (at_location-IsNumbered user r.location (stop_recording studio reports)
          stop_recording-IsNumbered)
        h answer w' e
