-- ===== src/Manager/Session/Steps.antt =====
-- The state of the manager under each handler.
use iron_link.Prelude.{
  ℕ, String, Bool, true, not, ◌==◌, ◌||◌, ◌≡◌, refl, subst, inl, inr, Option, some, is_some, eqb,
  Result-cases, Option-cases, Bool-cases, arith,
}
use iron_link.Api.Request.{Request}
use iron_link.Api.Reply.{PersistedEntry}
use iron_link.Store.Files.{Os}
use iron_link.Engine.Plan.{SessionPlan, is_member}
use iron_link.Engine.Plan.Lookup.{is_member-member_tag_for_name}
use iron_link.Manager.Prepare.{Env, prepare_activation, named}
use iron_link.Manager.Prepare.Member.{prepared-is_member}
use iron_link.Manager.Session.{
  Cores, Manager, state_event, broadcast_state, save_last, clear_last, close_session,
}
use iron_link.Manager.Session.Handlers.{
  activate, stop, member_of, live_switch, reactivation, switch_node, broadcast_live_change,
  or_empty,
}
use iron_link.Manager.Session.Coherent.{
  IsRunning, IsCoherent, close_session-IsIdle, broadcast_state-IsIdle, start_activation-IsCoherent,
}

module _ {Raw : Type 0} (env : Env Raw) (os : Os) (cores : Cores) (down : Bool) where
  pub activate-IsCoherent :
      (privilege : Option String) (req : Request Raw) (m : Manager Raw)
      → IsCoherent down m
      → IsCoherent down (activate env os cores privilege req m).0
  unfolding activate
  activate-IsCoherent privilege req m v =
      elim (Result-cases (prepare_activation env os privilege m.disk req)) [
        | inr (e, h) ↦ rw (h, activate) v
        | inl (prep, h) ↦
            rw (h, activate)
              (start_activation-IsCoherent env os cores down prep m
                (prepared-is_member env prep (os, privilege, m.disk, req, h)) v)
      ]

  pub stop-IsCoherent :
      (req : Request Raw) (m : Manager Raw)
      → IsCoherent down m
      → IsCoherent down (stop env os cores req m).0
  unfolding stop clear_last broadcast_state close_session
  stop-IsCoherent req m v = elim (Bool-cases (is_some req.role)) [
    | inl e ↦ rw (e, stop) v
    | inr e ↦ elim v [
      | inl w ↦ rw (e, stop, w.sess) (inl w)
      | inr (s, a, id, w) ↦
          let left = close_session-IsIdle env os cores down m s a id w in
          rw (e, stop, w.sess)
            (inl (record {
              sess = refl;
              cleared = λ h. (refl, refl, refl);
              emitter = refl;
              opened = left.opened;
              in_order = left.in_order;
            }))
    ]
  ]

  member_of-is_member :
      (plan : SessionPlan) (ref tag : String)
      → member_of env os cores plan ref ≡ some tag
      → is_member plan tag ≡ true
  unfolding member_of
  member_of-is_member plan ref tag h = elim (Bool-cases (is_member plan ref)) [
    | inl e ↦ let same : ref ≡ tag = ground arith in subst (λ t. is_member plan t ≡ true) same e
    | inr e ↦ is_member-member_tag_for_name plan ref tag (ground arith)
  ]

  live_switch-IsCoherent :
      (s : ℕ) (a : PersistedEntry) (id tag : String) (m : Manager Raw)
      → is_member m.plan tag ≡ true
      → IsRunning m s a id
      → IsCoherent down (live_switch env os cores s tag m).0
  unfolding live_switch save_last broadcast_state
  live_switch-IsCoherent s a id tag m member w = elim (Option-cases (cores.select_outbound s tag)) [
    | inr (bad, e) ↦
        rw (live_switch, e)
          (inr (
            s,
            a,
            id,
            record {
              sess = w.sess;
              active = w.active;
              node_id = w.node_id;
              node = w.node;
              profile = w.profile;
              member = w.member;
              emitter = w.emitter;
              opened = w.opened;
              in_order = (w.opened, w.in_order);
            },
          ))
    | inl e ↦
        rw (live_switch, e, w.active)
          (inr (
            s,
            _,
            tag,
            record {
              sess = w.sess;
              active = refl;
              node_id = refl;
              node = refl;
              profile = w.profile;
              member = member;
              emitter = w.emitter;
              opened = w.opened;
              in_order = (w.opened, w.in_order);
            },
          ))
  ]

  pub switch_node-IsCoherent :
      (privilege : Option String) (req : Request Raw) (m : Manager Raw)
      → IsCoherent down m
      → IsCoherent down (switch_node env os cores privilege req m).0
  unfolding switch_node
  switch_node-IsCoherent privilege req m v = elim (Option-cases (named req.node)) [
    | inl e ↦ rw (switch_node, e) v
    | inr (ref, e) ↦ elim v [
      | inl w ↦ rw (switch_node, e, w.sess) (inl w)
      | inr (s, a, id, w) ↦ elim (Option-cases (member_of env os cores m.plan ref)) [
        | inr (tag, f) ↦
            rw (switch_node, e, w.sess, f)
              (live_switch-IsCoherent s a id tag m (member_of-is_member m.plan ref tag f) w)
        | inl f ↦
            rw (switch_node, e, w.sess, f, w.active)
              (activate-IsCoherent privilege (reactivation env os cores a req.node) m
                (inr (s, a, id, w)))
      ]
    ]
  ]

  broadcast_state-IsCoherent :
      (m : Manager Raw) → IsCoherent down m → IsCoherent down (broadcast_state cores m)
  unfolding broadcast_state
  broadcast_state-IsCoherent m (inl w) = inl (broadcast_state-IsIdle env os cores down m w)
  broadcast_state-IsCoherent m (inr (s, a, id, w)) = inr (
    s,
    a,
    id,
    record {
      sess = w.sess;
      active = w.active;
      node_id = w.node_id;
      node = w.node;
      profile = w.profile;
      member = w.member;
      emitter = w.emitter;
      opened = w.opened;
      in_order = w.in_order;
    },
  )

  pub broadcast_live_change-IsCoherent :
      (s : ℕ) (last : String) (m : Manager Raw)
      → IsCoherent down m
      → IsCoherent down (broadcast_live_change env os cores s last m).0
  unfolding broadcast_live_change
  broadcast_live_change-IsCoherent s last m v = elim (Option-cases m.sess) [
    | inl e ↦ rw (broadcast_live_change, e) v
    | inr (other, e) ↦
        let current = or_empty env os cores ((state_event cores m).live_id) in
        elim (Bool-cases (not (eqb other s) || current == last)) [
          | inl f ↦ rw (broadcast_live_change, e, f) v
          | inr f ↦ rw (broadcast_live_change, e, f) (broadcast_state-IsCoherent m v)
        ]
  ]
