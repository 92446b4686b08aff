-- ===== src/Aws.antt =====
-- website-backend/ava/jobs/aws.py: the answers of EC2 reduced to an instance and its state. The
-- calls of boto3 are the fields of `Ec2`, which say `none` where a call raises.
--
-- The site runs Django 2.2, hence Python 3, where an exception has no `message`: the handlers
-- `except Exception as e: print('AWS Error: ' + e.message)` raise AttributeError themselves.
use ava_capture.Base.{
  String, str_eq, Bool, true, false, if◌then◌else◌, Option, none, some, List, [], ◌∷◌, ◌++◌,
}
use ava_capture.Farm.{Ec2, Instance, Result, ok, err, attribute_error, cloud_error}

-- `REGIONS`
abbrev pub regions : List String
regions = "us-east-1" ∷ "us-west-1" ∷ "us-west-2" ∷ []

-- `==` on texts that may be `None`
abbrev pub same_text : Option String → Option String → Bool
same_text none none = true
same_text (some s) (some t) = str_eq s t
same_text _ _ = false

-- The instances of all the reservations, in order.
unfoldable pub instances : List (List Instance) → List Instance
instances [] = []
instances (r ∷ rs) = r ++ instances rs

-- `instance.get('State').get('Name')`
abbrev pub state_name : Instance → Result (Option String)
state_name i = elim i.state [ none ↦ err attribute_error | some name ↦ ok name ]

-- The id, region and state of an instance.
abbrev pub Located : Type 0
Located = Option String × Option String × Option String

located : String → Instance → Result Located
located region i = elim (state_name i) [
  | err e ↦ err e
  | ok name ↦ ok (i.instance_id, some region, name)
]

module _ (ec2 : Ec2) where
  -- The loop of `instance_id_from_private_ip`; the first instance of a region ends it.
  unfoldable pub locate_in : String → List String → Result Located
  unfolding located
  locate_in ip [] = ok (none, none, some "none")
  locate_in ip (region ∷ rest) =
      let next = locate_in ip rest in
      elim (ec2.describe_by_ip region ip) [
        | none ↦ err attribute_error
        | some reservations ↦ elim (instances reservations) [ [] ↦ next | i ∷ _ ↦ located region i ]
      ]

  unfoldable pub instance_id_from_private_ip : String → Result Located
  unfolding locate_in
  instance_id_from_private_ip ip = locate_in ip regions

  -- The loop over the instances of an answer: the state of the one that is meant, else `None`.
  unfoldable pub state_in : Option String → List Instance → Result (Option String)
  state_in instance_id [] = ok none
  state_in instance_id (i ∷ rest) =
      if same_text instance_id i.instance_id then state_name i else state_in instance_id rest

  unfoldable pub instance_state : (instance_id region : Option String) → Result (Option String)
  unfolding state_in
  instance_state instance_id region = elim (ec2.describe_by_id region instance_id) [
    | none ↦ err attribute_error
    | some reservations ↦ state_in instance_id (instances reservations)
  ]

  unfoldable pub start_instance : (instance_id region : Option String) → Result (Option String)
  unfolding state_in
  start_instance instance_id region = elim (ec2.start_instances instance_id region) [
    | none ↦ err cloud_error
    | some starting ↦ state_in instance_id starting
  ]

  unfoldable pub stop_instance : (instance_id region : Option String) → Result (Option String)
  unfolding state_in
  stop_instance instance_id region = elim (ec2.stop_instances instance_id region) [
    | none ↦ err cloud_error
    | some stopping ↦ state_in instance_id stopping
  ]
