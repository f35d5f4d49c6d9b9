-- ===== src/Manager/Session/Announced.antt =====
-- The events of an activation, a stop and a switch.
use iron_link.Prelude.{
  ℕ, String, ◌≡◌, refl, ◌⊎◌, inl, inr, Option, none, some, is_some, List, ◌∷◌, Result-cases,
  Option-cases, Bool-cases,
}
use iron_link.Api.Request.{Request}
use iron_link.Store.Files.{Os}
use iron_link.Engine.Plan.{display_name_for_tag}
use iron_link.Manager.Prepare.{Env, Activation, prepare_activation, named}
use iron_link.Manager.Session.{
  no_plan, selected, Cores, Manager, StateEvent, state_event, live_node, entries, broadcast_state,
  save_last, clear_last, context_of, running_session, close_session, run_session, start_session,
  start_activation,
}
use iron_link.Manager.Session.Handlers.{
  activate, stop, member_of, live_switch, reactivation, switch_node, or_empty,
}

-- The latest event shows the new state, or the clients see the state `old` as before.
abbrev pub Announces : {Raw : Type 0} → Cores → StateEvent → Manager Raw → Type 0
Announces cores old m' =
    ((older : List StateEvent) × (m'.events ≡ state_event cores m' ∷ older))
    ⊎ (state_event cores m' ≡ old)

module _ {Raw : Type 0} (env : Env Raw) (os : Os) (cores : Cores) (old : StateEvent) where
  pub broadcast_state-Announces : (m : Manager Raw) → Announces cores old (broadcast_state cores m)
  unfolding broadcast_state state_event live_node entries
  broadcast_state-Announces m = inl (m.events, refl)

  pub start_session-Announces :
      (prep : Activation) (m : Manager Raw)
      → Announces cores old (start_session env os cores prep m).0
  unfolding start_session run_session
  start_session-Announces prep m = elim (Result-cases (cores.start prep.configs)) [
    | inr (e, h) ↦ rw (h, start_session) (broadcast_state-Announces m)
    | inl (s, h) ↦
        rw (h, start_session)
          (broadcast_state-Announces
            (record (save_last env os (context_of prep) (running_session cores prep s m)) {
              stop_traffic = some s;
            }))
  ]

  module _ (closes : (s : ℕ) → cores.close s ≡ none) where
    pub start_activation-Announces :
        (prep : Activation) (m : Manager Raw)
        → Announces cores old (start_activation env os cores prep m).0
    unfolding start_activation
    start_activation-Announces prep m = elim (Option-cases m.sess) [
      | inl e ↦ rw (start_activation, e) (start_session-Announces prep m)
      | inr (s, e) ↦
          rw (start_activation, e, closes s) (start_session-Announces prep (close_session s m))
    ]

    pub activate-Announces :
        (privilege : Option String) (req : Request Raw) (m : Manager Raw)
        → state_event cores m ≡ old
        → Announces cores old (activate env os cores privilege req m).0
    unfolding activate
    activate-Announces privilege req m same =
        elim (Result-cases (prepare_activation env os privilege m.disk req)) [
          | inr (e, h) ↦ rw (activate, h) (inr same)
          | inl (prep, h) ↦ rw (activate, h) (start_activation-Announces prep m)
        ]

    pub stop-Announces :
        (req : Request Raw) (m : Manager Raw)
        → state_event cores m ≡ old
        → Announces cores old (stop env os cores req m).0
    unfolding stop
    stop-Announces req m same = elim (Bool-cases (is_some req.role)) [
      | inl e ↦ rw (stop, e) (inr same)
      | inr e ↦ elim (Option-cases m.sess) [
        | inl f ↦ rw (stop, e, f) (inr same)
        | inr (s, f) ↦
            let left = record (close_session s m) { plan = no_plan } in
            rw (stop, e, f) (broadcast_state-Announces (clear_last env os left))
      ]
    ]

    pub live_switch-Announces :
        (s : ℕ) (tag : String) (m : Manager Raw)
        → state_event cores m ≡ old
        → Announces cores old (live_switch env os cores s tag m).0
    unfolding live_switch state_event live_node entries
    live_switch-Announces s tag m same = elim (Option-cases (cores.select_outbound s tag)) [
      | inr (bad, e) ↦ rw (live_switch, e) (inr same)
      | inl e ↦ elim (Option-cases m.active) [
        | inl f ↦ rw (live_switch, e, f) (inr same)
        | inr (a, f) ↦
            let name = or_empty env os cores (display_name_for_tag m.plan tag) in
            let context = record a { node = some name; node_id = some tag } in
            let asked = record m { calls = selected s tag ∷ m.calls; active = some context } in
            rw (live_switch, e, f) (broadcast_state-Announces (save_last env os context asked))
      ]
    ]

    pub switch_node-Announces :
        (privilege : Option String) (req : Request Raw) (m : Manager Raw)
        → state_event cores m ≡ old
        → Announces cores old (switch_node env os cores privilege req m).0
    unfolding switch_node
    switch_node-Announces privilege req m same = elim (Option-cases (named req.node)) [
      | inl e ↦ rw (switch_node, e) (inr same)
      | inr (ref, e) ↦ elim (Option-cases m.sess) [
        | inl f ↦ rw (switch_node, e, f) (inr same)
        | inr (s, f) ↦ elim (Option-cases (member_of env os cores m.plan ref)) [
          | inr (tag, k) ↦ rw (switch_node, e, f, k) (live_switch-Announces s tag m same)
          | inl k ↦ elim (Option-cases m.active) [
            | inl j ↦ rw (switch_node, e, f, k, j) (inr same)
            | inr (a, j) ↦
                rw (switch_node, e, f, k, j)
                  (activate-Announces privilege (reactivation env os cores a req.node) m same)
          ]
        ]
      ]
    ]
