-- ===== src/Manager/Verbs.antt =====
-- The verbs that edit a stored profile (daemon-go/cmd/iron-link-daemon/manager_store.go): each loads
-- the profile, edits it and saves it, under the mutex. The share-link parser, the decoders of the
-- payloads, `url.Parse` and `uuid.New` are arguments.
pub mod Kept
pub mod Ids
pub mod Subs
pub mod Updated
pub mod Stored
pub mod Requests
use iron_link.Prelude.{
  ℕ, String, Bool, true, false, not, ◌==◌, ◌||◌, ◌&&◌, eqb, ltb, Option, none, some, is_some, List,
  [], ◌∷◌, is_empty, any, contains, replace_first, if◌then◌else◌, Result, ok, err, ◌>>=◌, ◌>>◌,
  of_option, reject_if,
}
use iron_link.Proxy.Profile as Proxy
use iron_link.Proxy.Capabilities.{CoreType}
use iron_link.Routing
use iron_link.Api.Request.{Request}
use iron_link.Store.Profile.{
  Profile, Node, GroupSpec, GroupProbe, Subscription, is_group, display_name, find_node,
  find_node_by_id, find_subscription, find_routing, new_node, new_subscription,
  min_update_interval_sec,
}
use iron_link.Store.Mutators.{
  StoreError, add_node, add_group, replace_group_by_id, remove_node_by_id, set_active_node,
  add_subscription, remove_subscription, add_routing, replace_routing_by_id, remove_routing,
  set_active_routing,
}
use iron_link.Store.Files.{Os, Disk, Codec, FileError}
use iron_link.Store.Profiles.{load_profile, save_profile, active_profile_name}

-- `groupUpsert`
pub record GroupUpsert : Type 0 where
  pub id : String
  pub name : String
  pub members : List String
  pub all_of_sub : Option String
  pub probe : GroupProbe

pub data VerbError : Type 0 where
  files : FileError → VerbError
  store : StoreError → VerbError
  no_active_profile : VerbError
  requires : String → VerbError
  node_not_found subscription_not_found routing_not_found : String → VerbError
  bad_link bad_payload unknown_format : String → VerbError
  group_has_no_override : VerbError
  one_membership : VerbError
  not_dialable : String → VerbError
  interval_too_short : VerbError

-- An edit returns the profile as it leaves it, and what the verb replies.
abbrev pub Edit : Type 0 → Type 0
Edit A = Profile → Profile × Result VerbError A

abbrev pub lift {ℓ} : {A : Type ℓ} → Result StoreError A → Result VerbError A
lift (ok a) = ok a
lift (err e) = err (store e)

abbrev pub in_files {ℓ} : {A : Type ℓ} → Result FileError A → Result VerbError A
in_files (ok a) = ok a
in_files (err e) = err (files e)

-- A required field: absent and empty are one.
abbrev pub required : String → Option String → Result VerbError String
required what none = err (requires what)
required what (some s) = if s == "" then err (requires what) else ok s

module _ {Raw : Type 0} (c : Codec Raw) where
  unfoldable pub resolve_profile_name : Os → Disk Raw → Option String → Result VerbError String
  resolve_profile_name os d given = elim (required "profile" given) [
    | ok name ↦ ok name
    | err _ ↦ in_files (active_profile_name c os d) >>= λ name.
        if name == "" then err no_active_profile else ok name
  ]

  -- A failed edit is not saved.
  unfoldable pub with_profile :
      {A : Type 0} → Os → Option String → Edit A → Disk Raw → Disk Raw × Result VerbError A
  unfolding resolve_profile_name
  with_profile os given edit d = elim (resolve_profile_name os d given) [
    | err e ↦ (d, err e)
    | ok name ↦ (elim (load_profile c os d name) [
      | err e ↦ (d, err (files e))
      | ok p ↦ (elim (edit p).1 [
        | err e ↦ (d, err e)
        | ok a ↦
            let (d', saved) = save_profile c os name (edit p).0 d in
            (elim saved [ err e ↦ (d', err (files e)) | ok _ ↦ (d', ok a) ])
      ])
    ])
  ]

-- `selectNode`, which replies with the node's name.
unfoldable pub select_node : String → Edit String
select_node ref p = elim (find_node p ref) [
  | none ↦ (p, err (node_not_found ref))
  | some n ↦ let (p', done) = set_active_node p n.id in (p', lift done >>= λ _. ok (display_name n))
]

-- `addNode`, with the parsed link
unfoldable pub add_parsed_node : Result String Proxy.Profile → String → Edit String
add_parsed_node (err e) fresh p = (p, err (bad_link e))
add_parsed_node (ok parsed) fresh p =
    let node = new_node parsed none fresh in ((add_node p node).0, ok (display_name node))

unfoldable pub remove_node : String → Edit String
remove_node ref p = elim (find_node p ref) [
  | none ↦ (p, err (node_not_found ref))
  | some n ↦ ((remove_node_by_id p n.id).0, ok (display_name n))
]

-- The write through the pointer that the lookup returns goes to the first node with its id.
unfoldable pub set_node_prefs : String → Option CoreType → Edit String
set_node_prefs ref core p = elim (find_node p ref) [
  | none ↦ (p, err (node_not_found ref))
  | some n ↦ if is_group n then (p, err group_has_no_override) else (
    record p {
      nodes =
          replace_first (λ m. m.id == n.id)
            (λ m. record m { preferences = record { core_override = core } }) p.nodes;
    },
    ok (display_name n),
  )
]

-- The members that are no dialable nodes of the profile are refused, the first one named.
unfoldable pub check_dialable : Profile → List String → Result VerbError (Unit {0})
check_dialable p [] = ok tt
check_dialable p (id ∷ ids) = elim (find_node_by_id p id) [
  | none ↦ err (not_dialable id)
  | some n ↦ if is_group n then err (not_dialable id) else check_dialable p ids
]

-- The spec that an upsert stores: a subscription by its id, or a list of members.
unfoldable pub group_spec : Profile → GroupUpsert → Result VerbError GroupSpec
unfolding check_dialable
group_spec p g = elim (required "all_of_sub" g.all_of_sub) [
  | ok ref ↦ of_option (subscription_not_found ref) (find_subscription p ref) >>= λ sub.
      ok (record { name = g.name; members = []; all_of_sub = some sub.id; probe = g.probe })
  | err _ ↦
      check_dialable p g.members
      >> ok (record { name = g.name; members = g.members; all_of_sub = none; probe = g.probe })
]

-- `upsertGroup` under the profile; the reply is the id, "" for an edit.
unfoldable pub upsert_group : GroupUpsert → String → Edit String
unfolding group_spec
upsert_group g fresh p = elim (group_spec p g) [
  | err e ↦ (p, err e)
  | ok spec ↦
      let (added, id) = add_group p spec fresh in
      let (edited, done) = replace_group_by_id p g.id spec in
      if g.id == "" then (added, lift id) else (edited, lift done >>= λ _. ok "")
]

-- The membership is one of the two, tested before the profile is loaded.
unfoldable pub has_one_membership : GroupUpsert → Bool
has_one_membership g =
    let has_members = not (is_empty g.members) in
    let has_sub : Bool = elim g.all_of_sub [ none ↦ false | some s ↦ not (s == "") ] in
    if has_members then not has_sub else has_sub

abbrev pub formats : List String
formats = "auto" ∷ "links" ∷ "xray" ∷ "sing-box" ∷ "clash" ∷ "sip008" ∷ []

-- `ParseFormat` of daemon-go/internal/subscription/parse.go
unfoldable pub parse_format : String → Result VerbError String
parse_format s =
    if s == "" then ok "auto" else if contains formats s then ok s else err (unknown_format s)

unfoldable pub remove_sub : String → Edit String
remove_sub ref p = elim (find_subscription p ref) [
  | none ↦ (p, err (subscription_not_found ref))
  | some sub ↦ ((remove_subscription p sub.id).0, ok sub.name)
]

abbrev pub or_keep {ℓ} : {A : Type ℓ} → Option A → A → A
or_keep none old = old
or_keep (some new) old = new

abbrev pub filled : Option String → Option String
filled none = none
filled (some s) = if s == "" then none else some s

-- The edits of `updateSubscription` before that of the format.
unfoldable pub edit_sub : {Raw : Type 0} → Request Raw → Subscription → Subscription
edit_sub req s =
    let url = or_keep (filled req.url) s.url in
    record s {
      name = or_keep (filled req.name) s.name;
      url = url;
      last_error = if url == s.url then s.last_error else "";
      allow_invalid_certs = or_keep req.allow_invalid_certs s.allow_invalid_certs;
      enabled = or_keep req.enabled s.enabled;
      update_interval_sec = or_keep req.update_interval_sec s.update_interval_sec;
    }

abbrev pub format_of : Option String → Subscription → Result VerbError Subscription
format_of none s = ok s
format_of (some f) s = parse_format f >>= λ format. ok (record s { format = format })

-- The write goes to the first subscription that the reference names.
abbrev pub names_sub : String → Subscription → Bool
names_sub ref s = s.id == ref || s.name == ref

unfoldable pub update_subscription : {Raw : Type 0} → Request Raw → String → Edit String
unfolding edit_sub parse_format
update_subscription req ref p = elim (find_subscription p ref) [
  | none ↦ (p, err (subscription_not_found ref))
  | some sub ↦ (elim (format_of req.format (edit_sub req sub)) [
    | err e ↦ (p, err e)
    | ok edited ↦ (
      record p { subscriptions = replace_first (names_sub ref) (λ _. edited) p.subscriptions },
      ok edited.name,
    )
  ])
]

-- The test of the interval before the profile is loaded.
unfoldable pub interval_ok : Option ℕ → Bool
interval_ok none = true
interval_ok (some n) = not (ltb n min_update_interval_sec)

unfoldable pub select_routing : String → Edit String
select_routing ref p = elim (find_routing p ref) [
  | none ↦ (p, err (routing_not_found ref))
  | some rc ↦ let (p', done) = set_active_routing p rc.id in (p', lift done >>= λ _. ok rc.name)
]

unfoldable pub upsert_routing : Routing.Config → String → Edit String
upsert_routing rc fresh p =
    let (replaced, done) = replace_routing_by_id p rc.id rc in
    let (added, id) = add_routing p rc fresh in
    if any (λ r. r.id == rc.id) p.routing_configs
    then (replaced, lift done >>= λ _. ok rc.name)
    else (added, lift id >>= λ _. ok rc.name)

unfoldable pub remove_routing_named : String → Edit String
remove_routing_named ref p = elim (find_routing p ref) [
  | none ↦ (p, err (routing_not_found ref))
  | some rc ↦ ((remove_routing p rc.id).0, ok rc.name)
]
