-- ===== src/Site/Store.antt =====
-- The queries and writes of the views on the tables of the site.
use ava_capture.Base.{⊤, ℕ, ◌+◌, String, List, [], ◌∷◌, ◌++◌}
use ava_capture.Base.Table.{find, save}
use ava_capture.Base.Effects.{ok, or_raise, modify, does_not_exist}
use ava_capture.Farm.{Action}
use ava_capture.Site.Models.{
  Site, Task, Location, CaptureNode, Camera, Project, Session, Shot, Take, Recording, ScanAsset,
  TrackingAsset, Body,
}

abbrev pub location_key : Location → ℕ
location_key l = l.id

abbrev pub capture_node_key : CaptureNode → ℕ
capture_node_key n = n.id

abbrev pub camera_key : Camera → ℕ
camera_key c = c.id

abbrev pub project_key : Project → ℕ
project_key p = p.id

abbrev pub session_key : Session → ℕ
session_key s = s.id

abbrev pub shot_key : Shot → ℕ
shot_key s = s.id

abbrev pub take_key : Take → ℕ
take_key t = t.id

abbrev pub scan_key : ScanAsset → ℕ
scan_key a = a.id

abbrev pub tracking_key : TrackingAsset → ℕ
tracking_key a = a.id

-- `objects.get(pk=k)` on a table
abbrev pub get : {A : Type 0} → (A → ℕ) → (Site → List A) → ℕ → Task A
get key table k w = or_raise (find key k (table w)) does_not_exist w

abbrev pub get_location : ℕ → Task Location
get_location = get location_key (λ w. w.locations)

abbrev pub get_capture_node : ℕ → Task CaptureNode
get_capture_node = get capture_node_key (λ w. w.nodes)

abbrev pub get_camera : ℕ → Task Camera
get_camera = get camera_key (λ w. w.cameras)

abbrev pub get_project : ℕ → Task Project
get_project = get project_key (λ w. w.projects)

abbrev pub get_session : ℕ → Task Session
get_session = get session_key (λ w. w.sessions)

abbrev pub get_shot : ℕ → Task Shot
get_shot = get shot_key (λ w. w.shots)

abbrev pub get_take : ℕ → Task Take
get_take = get take_key (λ w. w.takes)

-- `save()` of a row that has its key
unfoldable pub save_location : Location → Task ⊤
save_location l = modify λ w. record w { locations = save location_key l w.locations }

unfoldable pub save_capture_node : CaptureNode → Task ⊤
save_capture_node n = modify λ w. record w { nodes = save capture_node_key n w.nodes }

unfoldable pub save_camera : Camera → Task ⊤
save_camera c = modify λ w. record w { cameras = save camera_key c w.cameras }

unfoldable pub save_session : Session → Task ⊤
save_session s = modify λ w. record w { sessions = save session_key s w.sessions }

unfoldable pub save_shot : Shot → Task ⊤
save_shot s = modify λ w. record w { shots = save shot_key s w.shots }

unfoldable pub save_take : Take → Task ⊤
save_take t = modify λ w. record w { takes = save take_key t w.takes }

unfoldable pub save_scan : ScanAsset → Task ⊤
save_scan a = modify λ w. record w { scan_assets = save scan_key a w.scan_assets }

unfoldable pub save_tracking : TrackingAsset → Task ⊤
save_tracking a = modify λ w. record w { tracking_assets = save tracking_key a w.tracking_assets }

-- `save()` of a new row: it gets the next key
unfoldable pub create_capture_node : CaptureNode → Task CaptureNode
create_capture_node n w =
    let n' = record n { id = w.next_node } in
    (ok n', record w { nodes = w.nodes ++ n' ∷ []; next_node = w.next_node + 1 })

unfoldable pub create_camera : Camera → Task ⊤
create_camera c = modify λ w. record w {
  cameras = w.cameras ++ record c { id = w.next_camera } ∷ [];
  next_camera = w.next_camera + 1;
}

unfoldable pub create_project : Project → Task Project
create_project p w =
    let p' = record p { id = w.next_project } in
    (ok p', record w { projects = w.projects ++ p' ∷ []; next_project = w.next_project + 1 })

unfoldable pub create_session : Session → Task Session
create_session s w =
    let s' = record s { id = w.next_session } in
    (ok s', record w { sessions = w.sessions ++ s' ∷ []; next_session = w.next_session + 1 })

unfoldable pub create_shot : Shot → Task Shot
create_shot s w =
    let s' = record s { id = w.next_shot } in
    (ok s', record w { shots = w.shots ++ s' ∷ []; next_shot = w.next_shot + 1 })

unfoldable pub create_take : Take → Task Take
create_take t w =
    let t' = record t { id = w.next_take } in
    (ok t', record w { takes = w.takes ++ t' ∷ []; next_take = w.next_take + 1 })

unfoldable pub create_recording : Recording → Task ⊤
create_recording r = modify λ w. record w {
  recordings = w.recordings ++ record r { id = w.next_recording } ∷ [];
  next_recording = w.next_recording + 1;
}

unfoldable pub create_scan : ScanAsset → Task ScanAsset
create_scan a w =
    let a' = record a { id = w.next_scan } in
    (ok a', record w { scan_assets = w.scan_assets ++ a' ∷ []; next_scan = w.next_scan + 1 })

unfoldable pub create_tracking : TrackingAsset → Task TrackingAsset
create_tracking a w =
    let a' = record a { id = w.next_tracking } in
    (
      ok a',
      record w {
        tracking_assets = w.tracking_assets ++ a' ∷ [];
        next_tracking = w.next_tracking + 1;
      },
    )

-- An action on the job farm, inside the site.
unfoldable pub on_farm : {A : Type 0} → Action A → Task A
on_farm m w = let (r, f) = m w.farm in (r, record w { farm = f })

-- `requests.post` to a capture node, whose failure and whose answer are not looked at.
unfoldable pub send : String → String → Body → Task ⊤
send ip path body =
    modify
      λ w. record w { sent = w.sent ++ record { ip_address = ip; path = path; body = body } ∷ [] }
