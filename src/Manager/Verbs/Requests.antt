-- ===== src/Manager/Verbs/Requests.antt =====
-- The verbs as requests (daemon-go/cmd/iron-link-daemon/manager_store.go): the fields that each asks
-- for, and its edit under the profile. The replies carry the name that the source puts into them.
use iron_link.Prelude.{String, Option, none, some, Result, ok, err, if◌then◌else◌}
use iron_link.Proxy.Profile as Proxy
use iron_link.Proxy.Capabilities.{CoreType}
use iron_link.Routing
use iron_link.Api.Request.{Request}
use iron_link.Store.Files.{Os, Disk, Codec}
use iron_link.Store.Profiles.{load_profile, save_profile}
use iron_link.Manager.Prepare.{Env}
use iron_link.Manager.Session.{Cores, Manager}
use iron_link.Manager.Session.Reconnect.{SessionReconnect, session_reconnect}
use iron_link.Manager.Verbs.{
  GroupUpsert, VerbError, Edit, files, requires, bad_payload, one_membership, interval_too_short,
  required, resolve_profile_name, with_profile, select_node, add_parsed_node, remove_node,
  set_node_prefs, upsert_group, has_one_membership, remove_sub, update_subscription, interval_ok,
  select_routing, upsert_routing, remove_routing_named,
}

module _ {Raw : Type 0} (c : Codec Raw) (os : Os) where
  -- An edit of what the field names.
  abbrev pub with_named :
      Request Raw
      → String
      → Option String
      → (String → Edit String)
      → Disk Raw
      → Disk Raw × Result VerbError String
  with_named req what field edit d = elim (required what field) [
    | err e ↦ (d, err e)
    | ok ref ↦ with_profile c os req.profile (edit ref) d
  ]

  -- An edit with a payload that decodes.
  abbrev pub with_payload :
      {A : Type 0}
      → String
      → Option Raw
      → (Raw → Result String A)
      → (A → Disk Raw → Disk Raw × Result VerbError String)
      → Disk Raw
      → Disk Raw × Result VerbError String
  with_payload what none decode next d = (d, err (requires what))
  with_payload what (some raw) decode next d = elim (decode raw) [
    | err e ↦ (d, err (bad_payload e))
    | ok a ↦ next a d
  ]

  unfoldable pub on_select_node : Request Raw → Disk Raw → Disk Raw × Result VerbError String
  unfolding with_profile select_node
  on_select_node req d = with_named req "node" req.node select_node d

  unfoldable pub on_add_node :
      (String → Result String Proxy.Profile)
      → String
      → Request Raw
      → Disk Raw
      → Disk Raw × Result VerbError String
  unfolding with_profile add_parsed_node
  on_add_node parse_url fresh req d =
      with_named req "url" req.url (λ url. add_parsed_node (parse_url url) fresh) d

  unfoldable pub on_remove_node : Request Raw → Disk Raw → Disk Raw × Result VerbError String
  unfolding with_profile remove_node
  on_remove_node req d = with_named req "node" req.node remove_node d

  unfoldable pub on_upsert_group :
      (Raw → Result String GroupUpsert)
      → String
      → Request Raw
      → Disk Raw
      → Disk Raw × Result VerbError String
  unfolding with_profile has_one_membership upsert_group
  on_upsert_group decode fresh req d =
      with_payload "group" req.group decode
        (λ g d'.
          if has_one_membership g
          then with_profile c os req.profile (upsert_group g fresh) d'
          else (d', err one_membership))
        d

  unfoldable pub on_remove_subscription :
      Request Raw → Disk Raw → Disk Raw × Result VerbError String
  unfolding with_profile remove_sub
  on_remove_subscription req d = with_named req "sub" req.sub remove_sub d

  unfoldable pub on_update_subscription :
      Request Raw → Disk Raw → Disk Raw × Result VerbError String
  unfolding with_profile update_subscription interval_ok
  on_update_subscription req d = elim (required "sub" req.sub) [
    | err e ↦ (d, err e)
    | ok ref ↦
        if interval_ok req.update_interval_sec
        then with_profile c os req.profile (update_subscription req ref) d
        else (d, err interval_too_short)
  ]

  unfoldable pub on_select_routing : Request Raw → Disk Raw → Disk Raw × Result VerbError String
  unfolding with_profile select_routing
  on_select_routing req d = with_named req "routing" req.routing select_routing d

  unfoldable pub on_upsert_routing :
      (Raw → Result String Routing.Config)
      → String
      → Request Raw
      → Disk Raw
      → Disk Raw × Result VerbError String
  unfolding with_profile upsert_routing
  on_upsert_routing decode fresh req d =
      with_payload "routing_config" req.routing_config decode
        (λ rc d'. with_profile c os req.profile (upsert_routing rc fresh) d') d

  unfoldable pub on_remove_routing : Request Raw → Disk Raw → Disk Raw × Result VerbError String
  unfolding with_profile remove_routing_named
  on_remove_routing req d = with_named req "routing" req.routing remove_routing_named d

-- What a pin does: the manager, the reply, and the reconnect that it decides on.
abbrev pub Pinned : Type 0 → Type 0
Pinned Raw = Manager Raw × Result VerbError String × Option (SessionReconnect Raw)

module _ {Raw : Type 0} (env : Env Raw) (os : Os) (cores : Cores) where
  -- The core pin under the profile: the reconnect is decided on before the profile is saved, and
  -- dropped when that fails.
  unfoldable pub pin_core : Option String → String → Option CoreType → Manager Raw → Pinned Raw
  unfolding resolve_profile_name set_node_prefs
  pin_core given ref core m = elim (resolve_profile_name env.codec os m.disk given) [
    | err e ↦ (m, err e, none)
    | ok name ↦ (elim (load_profile env.codec os m.disk name) [
      | err e ↦ (m, err (files e), none)
      | ok p ↦
          let (p', reply) = set_node_prefs ref core p in
          (elim reply [
            | err e ↦ (m, err e, none)
            | ok display ↦
                let (m', reconnect) = session_reconnect env os cores name p' m in
                let (d, saved) = save_profile env.codec os name p' m'.disk in
                (elim saved [
                  | err e ↦ (record m' { disk = d }, err (files e), none)
                  | ok _ ↦ (record m' { disk = d }, ok display, reconnect)
                ])
          ])
    ])
  ]

  -- `setNodePrefs`, up to the reconnect.
  unfoldable pub on_set_node_prefs : Request Raw → Manager Raw → Pinned Raw
  unfolding pin_core
  on_set_node_prefs req m = elim (required "node" req.node) [
    | err e ↦ (m, err e, none)
    | ok ref ↦ pin_core req.profile ref req.core_override m
  ]
