-- ===== src/Capture/Takes/Complete.antt =====
-- `register_new_take` on complete reports.
use ava_capture.Base.{◌≡◌, Bool, true, List, All}
use ava_capture.Site.{
  Site, Task, Take, Shot, Session, Project, Location, pure, ◌>>=◌, get_session, get_shot,
}
use ava_capture.Capture.Takes.Reports.{Studio, NodeReport, TakeInfo}
use ava_capture.Capture.Takes.{add_take, info_of, next_take_of}
use ava_capture.Capture.Takes.Returning.{AllComplete}

module _ (studio : Studio) (loc : Location) (nodes : List NodeReport) (is_burst is_scan : Bool)
    (w : Site) (long : studio.has_long ≡ true)
    (complete : All (λ (n : NodeReport). AllComplete w loc.id n.machine_name n.cameras) nodes)
    (project : Project) (session : Session) (shot : Shot) where
  -- The new take.
  abbrev new_take : Take
  new_take = record (next_take_of studio shot is_burst is_scan) { id = w.next_take }

  abbrev then_shot : Project → Session → Shot → Task TakeInfo
  then_shot p s sh =
      add_take studio loc sh nodes is_burst is_scan >>= λ take. pure (info_of p s sh take)

  abbrev then_session : Project → Session → Task TakeInfo
  then_session p s = get_shot shot.id >>= then_shot p s

  abbrev then_project : Project → Task TakeInfo
  then_project p = get_session session.id >>= then_session p
