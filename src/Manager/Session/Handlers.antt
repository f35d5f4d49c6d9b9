-- ===== src/Manager/Session/Handlers.antt =====
-- The handlers of the session verbs (daemon-go/cmd/iron-link-daemon/manager.go).
use iron_link.Prelude.{
  ℕ, String, Bool, true, not, ◌==◌, ◌||◌, eqb, Option, none, some, is_some, ◌∷◌, if◌then◌else◌,
  Result, ok, err,
}
use iron_link.Api.Request.{Request, empty_request}
use iron_link.Api.Reply.{PersistedEntry}
use iron_link.Store.Profile.{find_node_by_id}
use iron_link.Api.Settings.{Settings}
use iron_link.Store.Files.{Os, Disk, FileError}
use iron_link.Store.Profiles.{load_profile, load_last_session}
use iron_link.Store.Settings.{load_settings}
use iron_link.Engine.Plan.{SessionPlan, is_member, member_tag_for_name, display_name_for_tag}
use iron_link.Manager.Prepare.{Env, prepare_activation, named}
use iron_link.Manager.Session.{
  Cores, closed, selected, Manager, Reply, not_prepared, stopping_failed, selecting_failed,
  role_scoped, node_required, nothing_to_switch, nil_active, activated, switched, stopped, idle,
  running, no_plan, state_event, broadcast_state, save_last, clear_last, close_session,
  start_activation,
}

module _ {Raw : Type 0} (env : Env Raw) (os : Os) (cores : Cores) where
  -- `activate`; the store that is read may be older than the state that is changed.
  unfoldable pub activate : Option String → Request Raw → Manager Raw → Manager Raw × Reply
  unfolding prepare_activation start_activation
  activate privilege req m = elim (prepare_activation env os privilege m.disk req) [
    | err e ↦ (m, not_prepared e)
    | ok prep ↦ start_activation env os cores prep m
  ]

  unfoldable pub stop : Request Raw → Manager Raw → Manager Raw × Reply
  unfolding close_session clear_last broadcast_state
  stop req m = if is_some req.role then (m, role_scoped) else (elim m.sess [
    | none ↦ (m, idle)
    | some s ↦
        let left = record (close_session s m) { plan = no_plan } in
        let m' = broadcast_state cores (clear_last env os left) in
        (m', elim (cores.close s) [ some e ↦ stopping_failed e | none ↦ stopped ])
  ])

  -- `shutdown`, less the wait for a download.
  unfoldable pub shutdown : Manager Raw → Manager Raw
  shutdown m = elim m.sess [
    | none ↦ m
    | some s ↦ record m { sess = none; stop_traffic = none; calls = closed s ∷ m.calls }
  ]

  -- The member that a reference names: by its tag, then by its display name.
  unfoldable pub member_of : SessionPlan → String → Option String
  member_of plan ref = if is_member plan ref then some ref else member_tag_for_name plan ref

  abbrev pub or_empty : Option String → String
  or_empty none = ""
  or_empty (some s) = s

  -- The live switch of the running session `s` to the member `tag`.
  unfoldable pub live_switch : ℕ → String → Manager Raw → Manager Raw × Reply
  unfolding save_last broadcast_state
  live_switch s tag m =
      let asked = record m { calls = selected s tag ∷ m.calls } in
      elim (cores.select_outbound s tag) [
        | some e ↦ (asked, selecting_failed e)
        | none ↦ (elim m.active [
          | none ↦ (asked, nil_active)
          | some a ↦
              let name = or_empty (display_name_for_tag m.plan tag) in
              let context = record a { node = some name; node_id = some tag } in
              (
                broadcast_state cores
                    (save_last env os context (record asked { active = some context })),
                switched name,
              )
        ])
      ]

  -- The request that re-activates the running context around another node.
  abbrev pub reactivation : PersistedEntry → Option String → Request Raw
  reactivation a node = record empty_request {
    profile = a.profile;
    node = node;
    routing = a.routing;
    tun = some a.tun;
  }

  -- The reply of a re-activation names the node that is active now.
  unfoldable pub switch_reply : String → Manager Raw → Reply → Reply
  switch_reply ref m (activated _) = elim m.active [
    | none ↦ switched ref
    | some a ↦ (elim a.node [ none ↦ switched ref | some name ↦ switched name ])
  ]
  switch_reply ref m reply = reply

  unfoldable pub switch_node : Option String → Request Raw → Manager Raw → Manager Raw × Reply
  unfolding member_of live_switch activate switch_reply
  switch_node privilege req m = elim (named req.node) [
    | none ↦ (m, node_required)
    | some ref ↦ (elim m.sess [
      | none ↦ (m, nothing_to_switch)
      | some s ↦ (elim (member_of m.plan ref) [
        | some tag ↦ live_switch s tag m
        | none ↦ (elim m.active [
          | none ↦ (m, nil_active)
          | some a ↦
              let (m', reply) = activate privilege (reactivation a req.node) m in
              (m', switch_reply ref m' reply)
        ])
      ])
    ])
  ]

  unfoldable pub status : Manager Raw → Reply
  status m = elim m.sess [ none ↦ idle | some _ ↦ running (state_event cores m) ]

  -- One tick of the emitter of the session `s`, with the live node that it saw last.
  unfoldable pub broadcast_live_change : ℕ → String → Manager Raw → Manager Raw × String
  unfolding broadcast_state
  broadcast_live_change s last m = elim m.sess [
    | none ↦ (m, last)
    | some other ↦
        let current = or_empty ((state_event cores m).live_id) in
        if not (eqb other s) || current == last
        then (m, last)
        else (broadcast_state cores m, current)
  ]

  -- The reference that a record of the last session is restored by.
  unfoldable pub restore_node : PersistedEntry → Disk Raw → Option String
  restore_node context d = elim context.node_id [
    | none ↦ context.node
    | some id ↦ (elim context.profile [
      | none ↦ context.node
      | some name ↦ (elim (load_profile env.codec os d name) [
        | err _ ↦ some id
        | ok p ↦ if is_some (find_node_by_id p id) then some id else context.node
      ])
    ])
  ]

  abbrev pub restores : Result FileError Settings → Bool
  restores (ok s) = s.restore_on_start
  restores (err _) = true

  unfoldable pub restore_last_session : Option String → Manager Raw → Manager Raw
  unfolding restore_node activate
  restore_last_session privilege m =
      if not (restores (load_settings env.net env.codec env.host.goos os m.disk))
      then m
      else (elim (load_last_session env.codec os m.disk) [
        | err _ ↦ m
        | ok none ↦ m
        | ok (some context) ↦
            (activate privilege (reactivation context (restore_node context m.disk)) m).0
      ])
