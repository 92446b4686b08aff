-- ===== src/Capture/Allowed.antt =====
-- The rights on a location: `has_write_access_location_id` and the views that ask it.
use text.Mathlib.TextEquality.{eq_iff}
use ava_capture.Base.{
  ℕ, ◌≡◌, ◌≢◌, refl, String, Bool, Bool-cases, true, false, ◌&&◌, ◌==◌, Option, none, some, In,
  any_of, any_of→In, In→any_of, ==_refl, inl, inr, ◌⊎◌, str_eq, arith,
}
use ava_capture.Farm.{User, Result}
use ava_capture.Site.{
  Site, Task, Location, LocationAccess, ok, err, get_location, gets, for_each, create_shot,
  save_location, ◌>>=◌, pure,
}
use ava_capture.Capture.{has_write_access_location_id, camera_parameter}
use ava_capture.Capture.Shots.{
  NewSession, create_session_shot, shot_names, new_shot, post_new_session, post_new_shot,
  named_shot, open_shot,
}
use ava_capture.Names.{unique_shot_name}
use ava_capture.Capture.Takes.{register_new_take}
use ava_capture.Capture.Takes.Reports.{Studio}
use ava_capture.Capture.Recording.{
  Reports, online_nodes, prepare, tell, parallel_send_message, add_rotation_info_to_cameras,
  collect, RecordRequest, RecordAnswer, status, summary, at_location, start_recording,
  stop_recording, message_to, post_start_recording, post_stop_recording, post_record_single_image,
  post_message,
}
use ava_capture.Capture.Rights.{IsStranger, location_stranger}
use ava_capture.Capture.Locations.Settings.{LocationRequest, post_location_config}

-- A task that never answers `x`.
record Never {A : Type 0} (x : A) (m : Task A) : Type 0 where
  at : (w : Site) → (m w).0 ≢ ok x

Never-bind :
    {A B : Type 0} {x : B} (m : Task A) {f : A → Task B}
    → ((a : A) → Never x (f a))
    → Never x (m >>= f)
Never-bind {A = A} {x = x} m {f = f} never = record { at = λ w. go (m w) }
  where
    go : (p : Result A × Site) → (((λ _. p) >>= f) p.1).0 ≢ ok x
    go (ok a, w') = (never a).at w'
    go (err e, w') = λ h. cc

Never-pure : {A : Type 0} {x : A} (a : A) → a ≢ x → Never x (pure a)
Never-pure {x = x} a other = record { at = λ w h. other (same h) }
  where
    same : ok a ≡ ok x → a ≡ x
    same e = cc

is_200 : status 200 ≢ status 403
is_200 h = ground arith

start_recording-Never : (l : ℕ) (r : RecordRequest) → Never (status 403) (start_recording l r)
unfolding start_recording
start_recording-Never l r = Never-bind (get_location l) λ loc.
    Never-bind (create_session_shot loc r.session_id r.shot) λ _.
      Never-bind (gets (online_nodes l)) λ nodes.
        Never-bind (for_each (prepare "all_prepare_multi1") nodes) λ _.
          Never-bind (for_each (tell "all_prepare_multi2") nodes) λ _.
            Never-bind (for_each (tell "all_start_multi") nodes) λ _. Never-pure (status 200) is_200

message_to-Never : (message : String) (l : ℕ) → Never (status 403) (message_to message l)
message_to-Never message l = Never-bind (gets (online_nodes l)) λ nodes.
    Never-bind (for_each (parallel_send_message message) nodes) λ _. Never-pure (status 200) is_200

stop_recording-Never :
    (studio : Studio) (reports : Reports) (l : ℕ)
    → Never (status 403) (stop_recording studio reports l)
unfolding stop_recording
stop_recording-Never studio reports l = Never-bind (get_location l) λ loc.
    Never-bind (gets (online_nodes l)) λ nodes.
      Never-bind (for_each (tell "all_stop_sync") nodes) λ _.
        Never-bind (for_each (tell "all_stop_recording") nodes) λ _.
          Never-bind (for_each (tell "resume_preview") nodes) λ _.
            Never-bind (add_rotation_info_to_cameras (collect reports nodes)) λ reported.
              Never-bind (register_new_take studio loc reported false false)
                λ info. Never-pure (summary reported info) (λ h. cc)

open_shot-Never :
    (loc : Location) (session : Option ℕ) (given : String) → Never 403 (open_shot loc session given)
unfolding open_shot
open_shot-Never loc none given = record { at = λ w h. cc }
open_shot-Never loc (some session) given = Never-bind (gets (shot_names session)) λ taken.
    Never-bind (create_shot (new_shot (unique_shot_name given taken) session)) λ shot.
      Never-bind (save_location (record loc { cur_shot = some shot.id }))
        λ _. Never-pure 200 (λ h. ground arith)

named_shot-Never : (l : ℕ) (name : Option String) → Never 403 (named_shot l name)
unfolding named_shot
named_shot-Never l none = Never-pure 500 (λ h. ground arith)
named_shot-Never l (some given) =
    Never-bind (get_location l) λ loc. open_shot-Never loc loc.cur_session given

-- Some row of the access table lets the user write the location.
abbrev pub IsWriter : User → ℕ → Site → Type 0
IsWriter user l w =
    (a : LocationAccess) × In a w.accesses
    × (a.user ≡ user.username)
    × (a.location ≡ l)
    × (a.write_access ≡ true)

granting : (user : User) (l : ℕ) → LocationAccess → Bool
granting user l a = str_eq a.user user.username && a.location == l && a.write_access

has_write_access_location_id-IsWriter :
    (user : User) (l : ℕ) (w : Site)
    → IsWriter user l w
    → has_write_access_location_id user l w ≡ true
unfolding has_write_access_location_id granting
has_write_access_location_id-IsWriter user l w (a, m, own, here, may) =
    let hit : str_eq a.user user.username ≡ true = (eq_iff a.user user.username).1 own in
    In→any_of (granting user l) a w.accesses m (rw (hit, here, may, ==_refl l) refl)

module _ (user : User) (l : ℕ) (w : Site) where
  -- A user may write a location, or may not.
  location_cases : IsWriter user l w ⊎ IsStranger user l w
  unfolding granting
  location_cases = elim (Bool-cases (any_of (granting user l) w.accesses)) [
    | inl grants ↦
        let (a, m, hit) = any_of→In (granting user l) w.accesses grants in
        let kept : (str_eq a.user user.username ≡ true)
            × (a.location ≡ l)
            × (a.write_access ≡ true) =
          ground arith in
        inl (a, m, (eq_iff a.user user.username).0 kept.0, kept.1, kept.2)
    | inr none_grants ↦ inr (λ a m own here. elim (Bool-cases a.write_access) [
      | inr kept ↦ kept
      | inl may ↦
          let hit : str_eq a.user user.username ≡ true = (eq_iff a.user user.username).1 own in
          let grants : any_of (granting user l) w.accesses ≡ true =
            In→any_of (granting user l) a w.accesses m (rw (hit, here, may, ==_refl l) refl) in
          absurd (cc)
    ])
  ]

  -- These requests are not answered 403.
  abbrev pub NoneForbidden :
      Studio → Reports → RecordRequest → (message : String) → (shot : Option String) → Type 0
  NoneForbidden studio reports r message shot =
      ((post_start_recording user r w).0 ≢ ok (status 403))
      × ((post_stop_recording studio reports user r w).0 ≢ ok (status 403))
      × ((post_message user (some l) (some message) w).0 ≢ ok (status 403))
      × ((post_new_shot user l shot w).0 ≢ ok 403)

  at_location-allowed :
      (location : Option ℕ) (view : ℕ → Task RecordAnswer)
      → location ≡ some l
      → IsWriter user l w
      → Never (status 403) (view l)
      → (at_location user location view w).0 ≢ ok (status 403)
  unfolding at_location
  at_location-allowed location view here writer never =
      rw (here, has_write_access_location_id-IsWriter user l w writer) (never.at w)

  writer_allowed :
      (studio : Studio) (reports : Reports) (r : RecordRequest) (message : String)
      (shot : Option String)
      → r.location ≡ some l
      → IsWriter user l w
      → NoneForbidden studio reports r message shot
  unfolding post_start_recording post_stop_recording post_message post_new_shot
  writer_allowed studio reports r message shot here writer = (
    at_location-allowed r.location (λ k. start_recording k r) here writer
        (start_recording-Never l r),
    at_location-allowed r.location (stop_recording studio reports) here writer
        (stop_recording-Never studio reports l),
    at_location-allowed (some l) (message_to message) refl writer (message_to-Never message l),
    rw (has_write_access_location_id-IsWriter user l w writer) ((named_shot-Never l shot).at w),
  )

  -- The requests for the location are answered 403 and change and send nothing; its settings stay
  -- under the answer 200.
  abbrev pub AllForbidden :
      Studio
      → Reports
      → RecordRequest
      → (answers : Bool) → (now cam : ℕ) → NewSession
      → (shot : Option String) → (message body name value : String) → LocationRequest
      → Type 0
  AllForbidden studio reports r answers now cam session shot message body name value config =
      (post_start_recording user r w ≡ (ok (status 403), w))
      × (post_stop_recording studio reports user r w ≡ (ok (status 403), w))
      × (post_record_single_image studio reports user r w ≡ (ok (status 403), w))
      × (post_message user (some l) (some message) w ≡ (ok (status 403), w))
      × (post_new_session now user l session w ≡ (ok 403, w))
      × (post_new_shot user l shot w ≡ (ok 403, w))
      × (camera_parameter answers user l cam name value w ≡ (ok 403, w))
      × (post_location_config user body config l w ≡ (ok 200, w))

  -- For a user and a location, either a row of the access table lets the user write the location, and
  -- then the requests to start and to stop a recording there, to send its nodes a message and to
  -- open a shot are not answered 403; or no row does, and then these requests, and those for a
  -- single image, a new session and a camera parameter, answer 403 and change and send nothing, and
  -- the request for other settings of the location answers 200 and changes nothing.
  pub location_by_rights :
      (studio : Studio) (reports : Reports) (r : RecordRequest) (answers : Bool) (now cam : ℕ)
      (session : NewSession) (shot : Option String) (message body name value : String)
      (config : LocationRequest)
      → r.location ≡ some l
      → IsWriter user l w × NoneForbidden studio reports r message shot
        ⊎ IsStranger user l w
          × AllForbidden studio reports r answers now cam session shot message body name value
              config
  location_by_rights studio reports r answers now cam session shot message body name value config
        here =
      elim location_cases [
        | inl writer ↦ inl (writer, writer_allowed studio reports r message shot here writer)
        | inr stranger ↦ inr (
          stranger,
          location_stranger user l w stranger studio reports r answers now cam session shot message
              body name value config here,
        )
      ]
