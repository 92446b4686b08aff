-- ===== src/Capture/Shots.antt =====
-- Projects, sessions and shots: `create_session_shot`, `post_new_session` and `post_new_shot` of
-- website-backend/ava/capture/views.py.
pub mod Unique
use Prim.Native.String.{◌++◌ as ◌<>◌}
use ava_capture.Base.{
  ⊤, ℕ, String, str_eq, ◌==◌, if◌then◌else◌, Bool, true, false, not, ◌&&◌, ◌||◌, Option, none, some,
  List, select, map, count_where,
}
use ava_capture.Farm.{User}
use ava_capture.Names.{clean, padded, unique_shot_name, unique_session_name}
use ava_capture.Site.{
  Site, Task, Location, Project, Session, Shot, pure, raise, gets, or_raise, attribute_error,
  integrity_error, type_error, ◌>>=◌, ◌>>◌, get_location, get_project, get_session, get_shot,
  save_location, create_project, create_session, create_shot,
}
use ava_capture.Capture.{has_write_access_location_id}

-- `ArchiveShot(name=…, session=…)`
abbrev pub new_shot : String → ℕ → Shot
new_shot name session = record { id = 0; name = name; session = session; next_take = 1 }

-- `ArchiveSession(name=…, project=…)`
abbrev pub new_session : ℕ → String → ℕ → Session
new_session now name project = record {
  id = 0;
  name = name;
  project = project;
  start_time = now;
  frontal_cam_id = none;
  session_master_calib = none;
  session_master_colorchart = none;
  session_neutral_take = none;
  invert_polarization = false;
}

-- The names of the shots of a session, and of the sessions of a project.
unfoldable pub shot_names : ℕ → Site → List String
shot_names session w = map (λ (s : Shot). s.name) (select (λ s. s.session == session) w.shots)

unfoldable pub session_names : ℕ → Site → List String
session_names project w =
    map (λ (s : Session). s.name) (select (λ s. s.project == project) w.sessions)

-- `loc.cur_session` becomes the given one. The session is compared with a key, which it never
-- equals.
unfoldable pub choose_session : Location → Option ℕ → Task (Location × Bool)
choose_session loc none = pure (loc, false)
choose_session loc (some k) = do
  session ← get_session k
  pure (record loc { cur_session = some session.id }, true)

-- `(not loc.cur_shot) or (not loc.cur_shot.name == shot_name)`
unfoldable pub needs_shot : (cur_shot : Option ℕ) → String → Task Bool
needs_shot none name = pure true
needs_shot (some k) name = do shot ← get_shot k; pure (not (str_eq shot.name name))

abbrev is_unnamed : String → Bool
is_unnamed name = str_eq name "" || str_eq name "-new-"

-- The name of a new shot of a session.
abbrev pub shot_name_in : String → ℕ → Site → String
shot_name_in name session w =
    if is_unnamed name
    then "Shot_" <> padded 3 (count_where (λ s. s.session == session) w.shots)
    else name

-- A shot in the current session; without one, counting its shots raises, and so does saving the row.
unfoldable pub add_shot : Location → (cur_session : Option ℕ) → String → Task Location
add_shot loc none name = raise (if is_unnamed name then attribute_error else integrity_error)
add_shot loc (some session) name = do
  chosen ← gets (shot_name_in name session)
  shot ← create_shot (new_shot chosen session)
  pure (record loc { cur_shot = some shot.id })

-- `create_session_shot`; `re.sub` of `None` is a TypeError. The location in memory is the result.
unfoldable pub create_session_shot : Location → Option ℕ → Option String → Task Location
create_session_shot loc session_id none = raise type_error
create_session_shot loc session_id (some given) = do
  chosen ← choose_session loc session_id
  needed ← needs_shot chosen.0.cur_shot (clean given)
  final ← (if needed then add_shot chosen.0 chosen.0.cur_session (clean given) else pure chosen.0)
  (if chosen.1 || needed then save_location final else pure tt)
  pure final

-- The body of `post_new_session`.
pub record NewSession : Type 0 where
  pub name : Option String
  pub project_id : Option ℕ
  pub project_name : Option String

abbrev pub key_of : Option Project → Option ℕ
key_of none = none
key_of (some p) = some p.id

-- The project of the new session: a new one by name, an existing one by key, or the current one.
unfoldable pub session_project : Location → NewSession → Task (Option ℕ)
session_project loc r = do
  picked ← elim r.project_id [
    | none ↦ pure loc.cur_project
    | some k ↦ do p ← get_project k; pure (some p.id)
  ]
  elim r.project_name [
    | none ↦ pure picked
    | some name ↦ do
      p ← create_project (record { id = 0; name = name; archived = false })
      pure (some p.id)
  ]

-- The rows of the new session in a project.
unfoldable pub open_session : (now location_id : ℕ) → (given : String) → Option ℕ → Task ℕ
open_session now location_id given none = raise integrity_error
open_session now location_id given (some project) = do
  taken ← gets (session_names project)
  session ← create_session (new_session now (unique_session_name given (clean given) taken) project)
  shot ← create_shot (new_shot "Shot_000" session.id)
  loc ← get_location location_id
  save_location (record loc {
    cur_project = some project;
    cur_session = some session.id;
    cur_shot = some shot.id;
  })
  pure 200

-- The body of `post_new_session` behind the check of the rights.
unfoldable pub named_session : (now location_id : ℕ) → (name : Option String) → NewSession → Task ℕ
named_session now location_id none r = pure 500
named_session now location_id (some given) r = if str_eq (clean given) "" then pure 500 else do
  loc ← get_location location_id
  project ← session_project loc r
  open_session now location_id given project

unfoldable pub post_new_session : (now : ℕ) → User → ℕ → NewSession → Task ℕ
post_new_session now user location_id r = do
  allowed ← gets (has_write_access_location_id user location_id)
  (if not allowed then pure 403 else named_session now location_id r.name r)

-- A new shot in the current session, with a name that is free there.
unfoldable pub open_shot : Location → (cur_session : Option ℕ) → String → Task ℕ
open_shot loc none given = raise integrity_error
open_shot loc (some session) given = do
  taken ← gets (shot_names session)
  shot ← create_shot (new_shot (unique_shot_name given taken) session)
  save_location (record loc { cur_shot = some shot.id })
  pure 200

-- The body of `post_new_shot` behind the check of the rights.
unfoldable pub named_shot : ℕ → (name : Option String) → Task ℕ
named_shot location_id none = pure 500
named_shot location_id (some given) = do
  loc ← get_location location_id
  open_shot loc loc.cur_session given

unfoldable pub post_new_shot : User → ℕ → Option String → Task ℕ
post_new_shot user location_id name = do
  allowed ← gets (has_write_access_location_id user location_id)
  (if not allowed then pure 403 else named_shot location_id name)
