-- ===== src/Manager/Session/Heard.antt =====
-- The events of a reconnect, a restore, and every step under the mutex but a shutdown.
use iron_link.Prelude.{
  ℕ, String, false, not, ◌==◌, ◌||◌, ◌≡◌, refl, inl, inr, Option, none, some, [], any, map, lookup,
  eqb, Result-cases, Option-cases, Bool-cases,
}
use iron_link.Api.Reply.{PersistedEntry}
use iron_link.Store.Profile.{Profile, Node, display_name}
use iron_link.Store.Files.{Os}
use iron_link.Store.Profiles.{load_last_session}
use iron_link.Store.Settings.{load_settings}
use iron_link.Engine.Plan.{SessionPlan, display_name_for_tag}
use iron_link.Manager.BuildPlan.{build_plan}
use iron_link.Manager.Prepare.{Env, Activation}
use iron_link.Manager.Session.{
  Cores, Manager, StateEvent, state_event, live_node, entries, save_last,
}
use iron_link.Manager.Session.Handlers.{
  reactivation, broadcast_live_change, restores, restore_node, restore_last_session, or_empty,
}
use iron_link.Manager.Session.Reconnect.{
  SessionReconnect, fresh_names, relabel_member, relabel_group, relabel_plan, decide,
  session_reconnect, still_current, reconnect_prepared, runs_on, current_node, base_node,
  plan_members_equal, is_name, renames,
}
use iron_link.Manager.Session.Announced.{
  Announces, broadcast_state-Announces, start_activation-Announces, activate-Announces,
  stop-Announces, switch_node-Announces,
}
use iron_link.Manager.Session.Reachable.{
  Action, started, stopped, switched, ticked, refreshed, reconnected, restored, stored, shut,
  is_shutdown, act,
}

module _ {Raw : Type 0} (env : Env Raw) (os : Os) (cores : Cores) (old : StateEvent) where
  broadcast_live_change-Announces :
      (s : ℕ) (last : String) (m : Manager Raw)
      → state_event cores m ≡ old
      → Announces cores old (broadcast_live_change env os cores s last m).0
  unfolding broadcast_live_change
  broadcast_live_change-Announces s last m same = elim (Option-cases m.sess) [
    | inl e ↦ rw (broadcast_live_change, e) (inr same)
    | inr (other, e) ↦
        let current = or_empty env os cores ((state_event cores m).live_id) in
        elim (Bool-cases (not (eqb other s) || current == last)) [
          | inl f ↦ rw (broadcast_live_change, e, f) (inr same)
          | inr f ↦ rw (broadcast_live_change, e, f) (broadcast_state-Announces env os cores old m)
        ]
  ]

  relabel_plan-Announces :
      (fresh : SessionPlan) (current : Node) (a : PersistedEntry) (m : Manager Raw)
      → state_event cores m ≡ old
      → Announces cores old (relabel_plan env os cores fresh current a m)
  unfolding relabel_plan
  relabel_plan-Announces fresh current a m same =
      let names = fresh_names (fresh_names [] fresh.natives) fresh.xray_nodes in
      let context = record a { node = some (display_name current) } in
      let plan = record m.plan {
        natives = map (relabel_member names) m.plan.natives;
        xray_nodes = map (relabel_member names) m.plan.xray_nodes;
        groups = map (relabel_group fresh) m.plan.groups;
      } in
      let changed =
        any (λ n. renames (lookup n.id names) n.name) m.plan.natives
        || any (λ n. renames (lookup n.id names) n.name) m.plan.xray_nodes
        || any (λ g. renames (display_name_for_tag fresh g.id) g.name) m.plan.groups
        || not (is_name a.node (display_name current)) in
      elim (Bool-cases changed) [
        | inr e ↦ rw (relabel_plan, e) (inr same)
        | inl e ↦
            rw (relabel_plan, e)
              (broadcast_state-Announces env os cores old
                (save_last env os context (record m { plan = plan; active = some context })))
      ]

  decide-Announces :
      (p : Profile) (s : ℕ) (a : PersistedEntry) (selection : String) (current : Node)
      (m : Manager Raw)
      → state_event cores m ≡ old
      → Announces cores old (decide env os cores p s a selection current m).0
  unfolding decide
  decide-Announces p s a selection current m same =
      elim (Result-cases (build_plan p (base_node p m.plan.active_tag current) m.routing)) [
        | inr (bad, e) ↦ rw (decide, e) (inr same)
        | inl ((fresh, warnings), e) ↦
            elim (Bool-cases (plan_members_equal env.digest m.plan fresh)) [
              | inr f ↦ rw (decide, e, f) (inr same)
              | inl f ↦ rw (decide, e, f) (relabel_plan-Announces fresh current a m same)
            ]
      ]

  session_reconnect-Announces :
      (profile_name : String) (p : Profile) (m : Manager Raw)
      → state_event cores m ≡ old
      → Announces cores old (session_reconnect env os cores profile_name p m).0
  unfolding session_reconnect
  session_reconnect-Announces profile_name p m same = elim (Option-cases m.sess) [
    | inl e ↦ rw (session_reconnect, e) (inr same)
    | inr (s, e) ↦ elim (Option-cases m.active) [
      | inl f ↦ rw (session_reconnect, e, f) (inr same)
      | inr (a, f) ↦ elim (Option-cases (runs_on profile_name a)) [
        | inl k ↦ rw (session_reconnect, e, f, k) (inr same)
        | inr ((node, id), k) ↦ elim (Option-cases (current_node p node id)) [
          | inl j ↦ rw (session_reconnect, e, f, k, j) (inr same)
          | inr (current, j) ↦
              rw (session_reconnect, e, f, k, j) (decide-Announces p s a id current m same)
        ]
      ]
    ]
  ]

  module _ (closes : (s : ℕ) → cores.close s ≡ none) where
    reconnect_prepared-Announces :
        (rc : SessionReconnect Raw) (prep : Activation) (m : Manager Raw)
        → state_event cores m ≡ old
        → Announces cores old (reconnect_prepared env os cores rc prep m).0
    unfolding reconnect_prepared
    reconnect_prepared-Announces rc prep m same =
        elim (Bool-cases (still_current env os cores rc m)) [
          | inr e ↦ rw (reconnect_prepared, e) (inr same)
          | inl e ↦
              rw (reconnect_prepared, e) (start_activation-Announces env os cores old closes prep m)
        ]

    restore_last_session-Announces :
        (privilege : Option String) (m : Manager Raw)
        → state_event cores m ≡ old
        → Announces cores old (restore_last_session env os cores privilege m)
    unfolding restore_last_session
    restore_last_session-Announces privilege m same =
        let settings = load_settings env.net env.codec env.host.goos os m.disk in
        elim (Bool-cases (restores env os cores settings)) [
          | inr e ↦ rw (restore_last_session, e) (inr same)
          | inl e ↦ elim (Result-cases (load_last_session env.codec os m.disk)) [
            | inr (bad, f) ↦ rw (restore_last_session, e, f) (inr same)
            | inl (none, f) ↦ rw (restore_last_session, e, f) (inr same)
            | inl (some context, f) ↦
                let node = restore_node env os cores context m.disk in
                rw (restore_last_session, e, f)
                  (activate-Announces env os cores old closes privilege
                    (reactivation env os cores context node) m same)
          ]
        ]

-- Where no close fails, no change of the session state goes unheard: after every step but a shutdown,
-- the latest event shows the state as it is then, or the state that a new subscriber is shown is the
-- one from before. A shutdown, at the exit of the process, sends no event.
pub act-Announces :
    {Raw : Type 0} (env : Env Raw) (os : Os) (cores : Cores) (a : Action Raw) (m : Manager Raw)
    → ((s : ℕ) → cores.close s ≡ none)
    → is_shutdown a ≡ false
    → Announces cores (state_event cores m) (act env os cores a m)
unfolding act state_event live_node entries
act-Announces env os cores (started prep) m closes kept =
    start_activation-Announces env os cores (state_event cores m) closes prep m
act-Announces env os cores (stopped req) m closes kept =
    stop-Announces env os cores (state_event cores m) closes req m refl
act-Announces env os cores (switched privilege req) m closes kept =
    switch_node-Announces env os cores (state_event cores m) closes privilege req m refl
act-Announces env os cores (ticked s last) m closes kept =
    broadcast_live_change-Announces env os cores (state_event cores m) s last m refl
act-Announces env os cores (refreshed name p) m closes kept =
    session_reconnect-Announces env os cores (state_event cores m) name p m refl
act-Announces env os cores (reconnected rc prep) m closes kept =
    reconnect_prepared-Announces env os cores (state_event cores m) closes rc prep m refl
act-Announces env os cores (restored privilege) m closes kept =
    restore_last_session-Announces env os cores (state_event cores m) closes privilege m refl
act-Announces env os cores (stored d) m closes kept = inr refl
act-Announces env os cores shut m closes kept = absurd cc
