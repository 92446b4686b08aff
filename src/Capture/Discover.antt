-- ===== src/Capture/Discover.antt =====
-- What a capture node tells of itself: `node_discover` and `node_shutdown` of
-- website-backend/ava/capture/views.py. The update of the DNS server, which writes no row, is left
-- out.
pub mod Shutdown
pub mod Synced
use ava_capture.Base.{
  ⊤, ℕ, String, str_eq, ◌==◌, if◌then◌else◌, Bool, true, false, not, ◌&&◌, Option, none, some, List,
  [], ◌∷◌, any_of, contains_text, select, head?,
}
use ava_capture.Base.Int.{ℤ, pos, ltb_ℤ}
use ava_capture.Site.{
  Site, Task, Location, CaptureNode, Camera, pure, gets, modify, ◌>>=◌, ◌>>◌, get_location,
  save_capture_node, create_capture_node, create_camera, for_each,
}

-- The body of `node_discover`. `drives` is its JSON text.
pub record NodeHello : Type 0 where
  pub machine_name : String
  pub ip_address : String
  pub sync_found : Option Bool
  pub os : Option String
  pub code_version : Option ℤ
  pub build_version : Option String
  pub drives : Option String
  pub cameras : Option (List String)
  pub request_camera_params : Bool

-- The statuses 426 and 403, and 200 with the settings of the location and, where they were asked for,
-- those of the cameras.
pub data Greeting : Type 0 where
  too_old : Greeting
  not_registered : Greeting
  settings : Location → Option (List Camera) → Greeting

abbrev pub or_old : {A : Type 0} → Option A → A → A
or_old none old = old
or_old (some new) old = new

-- A row for a machine that is not known.
abbrev pub unknown_node : (now : ℕ) → NodeHello → CaptureNode
unknown_node now h = record {
  id = 0;
  ip_address = h.ip_address;
  machine_name = h.machine_name;
  os = none;
  last_seen = now;
  online = false;
  location = none;
  sync_found = false;
  drive_info = "";
  code_version = pos 0;
  build_version = "";
}

abbrev optional : {A : Type 0} → Option A → Option A → Option A
optional none old = old
optional (some new) old = some new

-- What the body says of the machine.
abbrev pub introduced : NodeHello → CaptureNode → CaptureNode
introduced h n = record n {
  sync_found = or_old h.sync_found n.sync_found;
  os = optional h.os n.os;
  online = true;
  code_version = or_old h.code_version (pos 0);
  build_version = or_old h.build_version "";
}

-- The first row with the machine's name, seen now; or a new row.
abbrev pub met : (now : ℕ) → NodeHello → Option CaptureNode → CaptureNode
met now h none = introduced h (unknown_node now h)
met now h (some n) = introduced h (record n { ip_address = h.ip_address; last_seen = now })

-- `CaptureNode.objects.filter(machine_name=…)`
unfoldable pub known_node : String → Site → Option CaptureNode
known_node name w = head? (select (λ (n : CaptureNode). str_eq n.machine_name name) w.nodes)

-- `CaptureLocation.objects.get(name='local')`, in a `try`: nothing where there is none, or several.
abbrev only : List Location → Option ℕ
only [] = none
only (l ∷ []) = some l.id
only (l ∷ m ∷ rest) = none

unfoldable pub local_location : Site → Option ℕ
local_location w = only (select (λ (l : Location). str_eq l.name "local") w.locations)

abbrev placed : Option ℕ → CaptureNode → CaptureNode
placed here n = record n { location = elim n.location [ none ↦ here | some l ↦ some l ] }

abbrev with_drives : NodeHello → CaptureNode → CaptureNode
with_drives h n = record n { drive_info = or_old h.drives n.drive_info }

-- `node.save()`
unfoldable pub store_node : Option CaptureNode → CaptureNode → Task CaptureNode
store_node none n = create_capture_node n
store_node (some _) n = do save_capture_node n; pure n

abbrev pub is_camera : (node : ℕ) → (unique_id : String) → Camera → Bool
is_camera node unique_id c = c.node == node && str_eq c.unique_id unique_id

-- `Camera(node=…, unique_id=…)`
abbrev pub new_camera : (node : ℕ) → (unique_id : String) → Camera
new_camera node unique_id = record {
  id = 0;
  node = node;
  unique_id = unique_id;
  model = "";
  version = "";
  exposure = "5000.0";
  gain = "0.0";
  lens_aperture = "5.6";
  using_sync = true;
  rotation = pos 0;
}

unfoldable pub ensure_camera : (node : ℕ) → (unique_id : String) → Task ⊤
ensure_camera node unique_id w =
    if any_of (is_camera node unique_id) w.cameras
    then pure tt w
    else create_camera (new_camera node unique_id) w

-- A camera that stays: one of another node, or one in the list.
abbrev pub stays : (node : ℕ) → List String → Camera → Bool
stays node listed c = not (c.node == node && not (contains_text listed c.unique_id))

-- The cameras of the node become those in the list.
unfoldable pub sync_cameras : (node : ℕ) → List String → Task ⊤
sync_cameras node listed = do
  for_each (ensure_camera node) listed
  modify λ w. record w { cameras = select (stays node listed) w.cameras }

abbrev update_cameras : (node : ℕ) → Option (List String) → Task ⊤
update_cameras node none = pure tt
update_cameras node (some listed) = sync_cameras node listed

unfoldable pub camera_params : NodeHello → (node : ℕ) → Site → Option (List Camera)
camera_params h node w =
    if h.request_camera_params
    then some (select (λ (c : Camera). c.node == node) w.cameras)
    else none

-- The answer, by the location of the node.
unfoldable pub greet : NodeHello → CaptureNode → Task Greeting
greet h n = elim n.location [
  | none ↦ pure not_registered
  | some l ↦ do
    loc ← get_location l
    params ← gets (camera_params h n.id)
    pure (settings loc params)
]

-- The part behind the check of the version.
unfoldable pub welcome : NodeHello → Option CaptureNode → CaptureNode → Task Greeting
welcome h known n = do
  here ← gets local_location
  stored ← store_node known (placed here (with_drives h n))
  update_cameras stored.id h.cameras
  greet h stored

unfoldable pub node_discover : (now : ℕ) → NodeHello → Task Greeting
node_discover now h = do
  known ← gets (known_node h.machine_name)
  let n = met now h known in
      if ltb_ℤ n.code_version (pos 1024) then pure too_old else welcome h known n

abbrev pub is_at : String → CaptureNode → Bool
is_at ip n = str_eq n.ip_address ip

abbrev pub off : CaptureNode → CaptureNode
off n = record n { online = false }

-- `node_shutdown`
unfoldable pub node_shutdown : (ip : String) → Task ℕ
node_shutdown ip = do
  nodes ← gets (λ w. select (is_at ip) w.nodes)
  for_each (λ n. save_capture_node (off n)) nodes
  pure 200
