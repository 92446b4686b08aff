-- ===== src/Capture/Rights.antt =====
-- Who may record, and who may change cameras, sessions and shots.
use text.Mathlib.TextEquality.{eq_iff}
use ava_capture.Base.{
  ℕ, ◌≡◌, ◌≢◌, refl, sym, subst, ◌∙◌, ap, String, Bool, Bool-cases, true, false, not, ◌&&◌, ◌==◌,
  if◌then◌else◌, Option, Option-cases, none, some, In, any_of, any_of→In, inl, inr, str_eq, arith,
}
use ava_capture.Base.Int.{ℤ}
use ava_capture.Base.Table.{find}
use ava_capture.Farm.{User, Result}
use ava_capture.Site.{
  Site, Task, Camera, CaptureNode, LocationAccess, ok, err, Error, or_raise, does_not_exist,
  attribute_error, value_error, camera_key, capture_node_key, get_camera, get_capture_node, >>=-ok,
  >>=-err, ◌>>=◌, pure,
}
use ava_capture.Capture.{
  has_write_access_location_id, with_camera, has_write_access_node, for_writer, toggle_using_sync,
  set_camera_rotation, toggle_capturing, post_toggle_using_sync, post_set_camera_rotation,
  post_toggle_capturing, camera_parameter,
}
use ava_capture.Capture.Shots.{NewSession, post_new_session, post_new_shot}
use ava_capture.Capture.Takes.Reports.{Studio}
use ava_capture.Capture.Recording.{
  Reports, RecordRequest, RecordAnswer, status, at_location, start_recording, stop_recording,
  record_single_image, message_to, post_start_recording, post_stop_recording,
  post_record_single_image, post_message,
}
use ava_capture.Capture.Locations.Settings.{LocationRequest, post_location_config}

-- No row of the access table lets the user write the location.
abbrev pub IsStranger : User → ℕ → Site → Type 0
IsStranger user l w =
    (a : LocationAccess)
    → In a w.accesses
    → a.user ≡ user.username
    → a.location ≡ l
    → a.write_access ≡ false

has_write_access_location_id-IsStranger :
    (user : User) (l : ℕ) (w : Site)
    → IsStranger user l w
    → has_write_access_location_id user l w ≡ false
unfolding has_write_access_location_id
has_write_access_location_id-IsStranger user l w stranger =
    elim (Bool-cases (any_of granted w.accesses)) [
      | inr none_grants ↦ none_grants
      | inl grants ↦
          let (a, m, hit) = any_of→In granted w.accesses grants in
          let kept : (str_eq a.user user.username ≡ true)
              × (a.location ≡ l)
              × (a.write_access ≡ true) =
            ground arith in
          let same : a.user ≡ user.username = (eq_iff a.user user.username).0 kept.0 in
          let refused = stranger a m same kept.1 in absurd (cc)
    ]
  where
    granted : LocationAccess → Bool
    granted a = str_eq a.user user.username && a.location == l && a.write_access

-- A request that has changed and sent nothing, and has not been granted.
abbrev pub IsLeft : Result ℕ × Site → Site → Type 0
IsLeft p w = (p.1 ≡ w) × (p.0 ≢ ok 200)

raised-IsLeft : (e : Error) (w : Site) → IsLeft (err e, w) w
raised-IsLeft e w = (refl, λ h. cc)

module _ (user : User) (l : ℕ) (w : Site) (is_stranger : IsStranger user l w) where
  stranger : has_write_access_location_id user l w ≡ false
  stranger = has_write_access_location_id-IsStranger user l w is_stranger

  at_location-refused :
      (view : ℕ → Task RecordAnswer) → at_location user (some l) view w ≡ (ok (status 403), w)
  unfolding at_location
  at_location-refused view = rw stranger refl

  -- For a user whom no row of the access table lets write a location, the requests to record there,
  -- to send its nodes a message, to open a session or a shot and to set a camera parameter answer 403
  -- and change and send nothing; its settings are not changed either, under the answer 200.
  pub location_stranger :
      (studio : Studio) (reports : Reports) (r : RecordRequest) (answers : Bool) (now cam : ℕ)
      (session : NewSession) (shot : Option String) (message body name value : String)
      (config : LocationRequest)
      → r.location ≡ some l
      → (post_start_recording user r w ≡ (ok (status 403), w))
        × (post_stop_recording studio reports user r w ≡ (ok (status 403), w))
        × (post_record_single_image studio reports user r w ≡ (ok (status 403), w))
        × (post_message user (some l) (some message) w ≡ (ok (status 403), w))
        × (post_new_session now user l session w ≡ (ok 403, w))
        × (post_new_shot user l shot w ≡ (ok 403, w))
        × (camera_parameter answers user l cam name value w ≡ (ok 403, w))
        × (post_location_config user body config l w ≡ (ok 200, w))
  unfolding post_start_recording post_stop_recording post_record_single_image post_message
      post_new_session post_new_shot camera_parameter post_location_config
  location_stranger studio reports r answers now cam session shot message body name value config
        here =
      (
        ap (λ o. at_location user o (λ k. start_recording k r) w) here
            ∙ at_location-refused (λ k. start_recording k r),
        ap (λ o. at_location user o (stop_recording studio reports) w) here
            ∙ at_location-refused (stop_recording studio reports),
        ap (λ o. at_location user o (record_single_image studio reports r) w) here
            ∙ at_location-refused (record_single_image studio reports r),
        at_location-refused (message_to message),
        rw stranger refl,
        rw stranger refl,
        rw stranger refl,
        rw stranger refl,
      )

-- The user may not write the location of the node of the camera, where there is one.
abbrev pub IsStrangerOf : User → ℕ → Site → Type 0
IsStrangerOf user k w =
    (camera : Camera) (node : CaptureNode) (l : ℕ)
    → find camera_key k w.cameras ≡ some camera
    → find capture_node_key camera.node w.nodes ≡ some node
    → node.location ≡ some l
    → IsStranger user l w

module _ (user : User) (w : Site) where
  for_writer-IsLeft :
      (camera : Camera) (node : CaptureNode) (view : Camera → CaptureNode → Task ℕ)
      → ((l : ℕ) → node.location ≡ some l → IsStranger user l w)
      → IsLeft (for_writer user view camera node w) w
  unfolding has_write_access_node
  for_writer-IsLeft camera node view strangers = by_location node.location refl
    where
      by_location :
          (o : Option ℕ)
          → node.location ≡ o
          → IsLeft
              ((has_write_access_node user o >>= λ allowed.
                  if not allowed then pure 403 else view camera node)
                w)
              w
      by_location none here = raised-IsLeft attribute_error w
      by_location (some l) here =
          rw (stranger user l w (strangers l here)) (refl, λ h. ground arith)

  with_camera-IsLeft :
      (k : ℕ) (view : Camera → CaptureNode → Task ℕ)
      → IsStrangerOf user k w
      → IsLeft (with_camera user k view w) w
  unfolding with_camera
  with_camera-IsLeft k view strangers = elim (Option-cases (find camera_key k w.cameras)) [
    | inl missing ↦
        subst (λ p. IsLeft p w)
          (sym (
            >>=-err (get_camera k) (λ c. get_capture_node c.node >>= for_writer user view c) w
              (ap (λ o. or_raise o does_not_exist w) missing)))
          (raised-IsLeft does_not_exist w)
    | inr (camera, found) ↦
        subst (λ p. IsLeft p w)
          (sym (
            >>=-ok (get_camera k) (λ c. get_capture_node c.node >>= for_writer user view c) w
              (ap (λ o. or_raise o does_not_exist w) found)))
          (of_camera camera found)
  ]
    where
      of_camera :
          (camera : Camera)
          → find camera_key k w.cameras ≡ some camera
          → IsLeft ((get_capture_node camera.node >>= for_writer user view camera) w) w
      of_camera camera found = elim (Option-cases (find capture_node_key camera.node w.nodes)) [
        | inl missing ↦
            subst (λ p. IsLeft p w)
              (sym (
                >>=-err (get_capture_node camera.node) (for_writer user view camera) w
                  (ap (λ o. or_raise o does_not_exist w) missing)))
              (raised-IsLeft does_not_exist w)
        | inr (node, there) ↦
            subst (λ p. IsLeft p w)
              (sym (
                >>=-ok (get_capture_node camera.node) (for_writer user view camera) w
                  (ap (λ o. or_raise o does_not_exist w) there)))
              (for_writer-IsLeft camera node view (λ l. strangers camera node l found there))
      ]

  -- Where no row of the access table lets a user write the location of the node of the camera that
  -- is named, the requests to switch its synchronisation, to turn its image and to switch its
  -- capturing change and send nothing and do not answer 200, whatever the request names.
  pub camera_stranger :
      (key : Option ℕ) (angle : Option ℤ)
      → ((k : ℕ) → key ≡ some k → IsStrangerOf user k w)
      → IsLeft (post_toggle_using_sync user key w) w
        × IsLeft (post_set_camera_rotation user key angle w) w
        × IsLeft (post_toggle_capturing user key w) w
  unfolding post_toggle_using_sync post_set_camera_rotation post_toggle_capturing
  camera_stranger none angle strangers =
      (raised-IsLeft value_error w, raised-IsLeft value_error w, (refl, λ h. ground arith))
  camera_stranger (some k) none strangers = (
    with_camera-IsLeft k toggle_using_sync (strangers k refl),
    raised-IsLeft value_error w,
    with_camera-IsLeft k toggle_capturing (strangers k refl),
  )
  camera_stranger (some k) (some angle) strangers = (
    with_camera-IsLeft k toggle_using_sync (strangers k refl),
    with_camera-IsLeft k (set_camera_rotation angle) (strangers k refl),
    with_camera-IsLeft k toggle_capturing (strangers k refl),
  )
