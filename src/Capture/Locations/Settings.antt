-- ===== src/Capture/Locations/Settings.antt =====
-- The settings of a location and the overview of all locations: `location_config`, `get_locations`
-- and `location` of website-backend/ava/capture/views.py.
use ava_capture.Base.{
  ⊤, ℕ, ◌+◌, ltb, String, str_eq, ◌==◌, if◌then◌else◌, Bool, true, false, ◌&&◌, ◌||◌, Option, none,
  some, List, [], ◌∷◌, ◌++◌, map, any_of, count_where,
}
use ava_capture.Base.Int.{ℤ}
use ava_capture.Base.Table.{find, update_where}
use ava_capture.Farm.{Job, Node, User, is, running, ready, seconds}
use ava_capture.Site.{
  Site, Task, Location, CaptureNode, Camera, text, pure, gets, modify, ◌>>=◌, ◌>>◌, get_location,
  save_location, send, for_each, location_key,
}
use ava_capture.Capture.{has_write_access_location_id, has_read_access_location_id}
use ava_capture.Capture.Discover.{or_old}
use ava_capture.Capture.Recording.{online_nodes}

-- The body of the POST of `location_config`.
pub record LocationRequest : Type 0 where
  pub pulse_duration : Option ℤ
  pub frequency : Option ℤ
  pub external_sync : Option Bool
  pub display_focus_peak : Option Bool
  pub display_overexposed : Option Bool
  pub display_histogram : Option Bool
  pub bitdepth_avi : Option ℤ
  pub bitdepth_single : Option ℤ
  pub image_format : Option String
  pub wb_R : Option String
  pub wb_G : Option String
  pub wb_B : Option String

abbrev pub configured : LocationRequest → Location → Location
configured r l = record l {
  pulse_duration = or_old r.pulse_duration l.pulse_duration;
  hardware_sync_frequency = or_old r.frequency l.hardware_sync_frequency;
  external_sync = or_old r.external_sync l.external_sync;
  display_focus_peak = or_old r.display_focus_peak l.display_focus_peak;
  display_overexposed = or_old r.display_overexposed l.display_overexposed;
  display_histogram = or_old r.display_histogram l.display_histogram;
  bitdepth_avi = or_old r.bitdepth_avi l.bitdepth_avi;
  bitdepth_single = or_old r.bitdepth_single l.bitdepth_single;
  image_format = or_old r.image_format l.image_format;
  wb_R = or_old r.wb_R l.wb_R;
  wb_G = or_old r.wb_G l.wb_G;
  wb_B = or_old r.wb_B l.wb_B;
}

-- The body is sent on as it came.
unfoldable pub apply_options_on_node : (body : String) → CaptureNode → Task ⊤
apply_options_on_node body n = send n.ip_address "options/" (text body)

-- The POST for a user who may write the location.
unfoldable pub set_config : (body : String) → LocationRequest → ℕ → Task ⊤
set_config body r location_id = do
  loc ← get_location location_id
  nodes ← gets (online_nodes location_id)
  for_each (apply_options_on_node body) nodes
  save_location (configured r loc)

-- The POST of `location_config`: a user without the right gets an empty list of messages.
unfoldable pub post_location_config : User → (body : String) → LocationRequest → ℕ → Task ℕ
post_location_config user body r location_id = do
  allowed ← gets (has_write_access_location_id user location_id)
  (if allowed then set_config body r location_id else pure tt)
  pure 200

-- A user may read a location that all may read, or that a right is for.
abbrev pub may_read : User → ℕ → Site → Bool
may_read user location_id w =
    elim (find location_key location_id w.locations) [ none ↦ false | some l ↦ l.read_access_all ]
    || has_read_access_location_id user location_id w

-- The GET of `location_config`: the location with its settings, or 403.
unfoldable pub location_config : User → ℕ → Site → Option Location
location_config user location_id w =
    if may_read user location_id w then find location_key location_id w.locations else none

-- `online=True, last_seen__lt=now - 90 s`
abbrev pub timed_out : (now : ℕ) → CaptureNode → Bool
timed_out now n = n.online && ltb (n.last_seen + seconds 90) now

abbrev pub offline : CaptureNode → CaptureNode
offline n = record n { online = false }

-- `online=True, last_seen__gt=now - 90 s`
abbrev pub is_alive : (now : ℕ) → CaptureNode → Bool
is_alive now n = n.online && ltb now (n.last_seen + seconds 90)

abbrev pub is_in : Option ℕ → CaptureNode → Bool
is_in none n = elim n.location [ none ↦ true | some _ ↦ false ]
is_in (some k) n = elim n.location [ none ↦ false | some l ↦ l == k ]

-- The cameras of the live nodes in a location, or in none.
unfoldable pub live_cameras : (now : ℕ) → Option ℕ → Site → ℕ
live_cameras now place w =
    count_where
      (λ (c : Camera).
        any_of (λ (n : CaptureNode). n.id == c.node && is_alive now n && is_in place n) w.nodes)
      w.cameras

pub record LocationEntry : Type 0 where
  pub name : String
  pub id : ℕ
  pub active : ℕ
  pub access : Bool

pub record Overview : Type 0 where
  pub locations : List LocationEntry
  pub nb_running_jobs : ℕ
  pub nb_queued_jobs : ℕ
  pub nb_farmnodes_active : ℕ

abbrev entry_of : (now : ℕ) → User → Site → Location → LocationEntry
entry_of now user w l = record {
  name = l.name;
  id = l.id;
  active = live_cameras now (some l.id) w;
  access = l.read_access_all || has_read_access_location_id user l.id w;
}

abbrev unknown_entry : ℕ → List LocationEntry
unknown_entry n =
    if n == 0 then [] else record { name = "Unknown"; id = 0; active = n; access = true } ∷ []

unfoldable pub overview : (now : ℕ) → User → Site → Overview
overview now user w = record {
  locations = map (entry_of now user w) w.locations ++ unknown_entry (live_cameras now none w);
  nb_running_jobs = count_where (λ (j : Job). is running j.status) w.farm.jobs;
  nb_queued_jobs = count_where (λ (j : Job). is ready j.status) w.farm.jobs;
  nb_farmnodes_active =
      count_where (λ (n : Node). str_eq n.status "accepting" && ltb now (n.last_seen + seconds 90))
        w.farm.nodes;
}

-- `get_locations`: nodes that were not seen for 90 seconds go offline first.
unfoldable pub get_locations : (now : ℕ) → User → Task Overview
get_locations now user = do
  modify λ w. record w { nodes = update_where (timed_out now) offline w.nodes }
  gets (overview now user)

-- `location`: the name, or 404.
unfoldable pub location : ℕ → Task (Option String)
location location_id =
    if location_id == 0 then pure none else do loc ← get_location location_id; pure (some loc.name)
