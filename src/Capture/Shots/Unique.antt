-- ===== src/Capture/Shots/Unique.antt =====
-- The row of a new shot, and its name.
use ava_capture.Base.{
  ℕ, ◌≡◌, refl, ◌∙◌, ap, String, true, false, some, [], ◌∷◌, ◌++◌, contains_text,
}
use ava_capture.Base.Table.{find, save}
use ava_capture.Farm.{User}
use ava_capture.Names.{unique_shot_name}
use ava_capture.Names.Fresh.{unique_names_fresh}
use ava_capture.Site.{
  Site, Location, Shot, ok, or_raise, does_not_exist, location_key, get_location, create_shot,
  save_location, >>=-ok,
}
use ava_capture.Capture.{has_write_access_location_id}
use ava_capture.Capture.Shots.{post_new_shot, named_shot, open_shot, shot_names, new_shot}

-- A request with a name for a new shot, from a user who may write the location, whose session is
-- chosen, answers 200. One shot is added: it is in that session, its name is not among those of the
-- session's shots, its next take is number 1, and it becomes the location's shot.
pub post_new_shot-fresh :
    (user : User) (location given_session : ℕ) (given : String) (loc : Location) (w : Site)
    → has_write_access_location_id user location w ≡ true
    → find location_key location w.locations ≡ some loc
    → loc.cur_session ≡ some given_session
    → (shot : Shot) × (w' : Site) × (post_new_shot user location (some given) w ≡ (ok 200, w'))
      × (w'.shots ≡ w.shots ++ shot ∷ [])
      × (contains_text (shot_names given_session w) shot.name ≡ false)
      × (shot.session ≡ given_session)
      × (shot.next_take ≡ 1)
      × (w'.locations ≡ save location_key (record loc { cur_shot = some shot.id }) w.locations)
unfolding post_new_shot named_shot open_shot create_shot save_location
post_new_shot-fresh user location given_session given loc w allowed found chosen =
    let taken = shot_names given_session w in
    let shot = record (new_shot (unique_shot_name given taken) given_session) {
      id = w.next_shot;
    } in
    let w' = (open_shot loc (some given_session) given w).1 in
    (
      shot,
      w',
      rw allowed (
          >>=-ok (get_location location) (λ loc'. open_shot loc' loc'.cur_session given) w
            (ap (λ o. or_raise o does_not_exist w) found)
          ∙ ap (λ o. open_shot loc o given w) chosen),
      refl,
      (unique_names_fresh given given taken).0,
      refl,
      refl,
      refl,
    )
