-- ===== src/Manager/Session/Relabel.antt =====
-- The state of the manager under a relabelling and a decided reconnect.
use iron_link.Prelude.{
  ℕ, String, Bool, not, ◌||◌, ◌≡◌, refl, inl, inr, List, [], ◌∷◌, map, any, lookup, Result-cases,
  Option-cases, Bool-cases,
}
use iron_link.Api.Reply.{PersistedEntry}
use iron_link.Store.Profile.{Profile, Node, display_name}
use iron_link.Store.Files.{Os}
use iron_link.Engine.Plan.{
  NamedNode, GroupPlan, SessionPlan, is_member, member_tags, node_tags, display_name_for_tag,
  ids_of, group_ids,
}
use iron_link.Manager.BuildPlan.{build_plan}
use iron_link.Manager.Prepare.{Env, Activation}
use iron_link.Manager.Prepare.Member.{IsPrepared, prepared-is_member}
use iron_link.Manager.Session.{Cores, Manager, broadcast_state, save_last}
use iron_link.Manager.Session.Reconnect.{
  SessionReconnect, relabel_member, relabel_group, relabel_plan, fresh_names, decide,
  session_reconnect, still_current, reconnect_prepared, runs_on, current_node, base_node,
  plan_members_equal, is_name, renames,
}
use iron_link.Manager.Session.Coherent.{IsRunning, IsCoherent, start_activation-IsCoherent}

-- New names leave the ids as they are.
relabel_member-id :
    (names : List (String × String)) (n : NamedNode) → (relabel_member names n).id ≡ n.id
unfolding relabel_member
relabel_member-id names n = elim (Option-cases (lookup n.id names)) [
  | inl e ↦ rw (relabel_member, e) refl
  | inr (name, e) ↦ rw (relabel_member, e) refl
]

ids_of-relabel_member :
    (names : List (String × String)) (ns : List NamedNode)
    → ids_of (map (relabel_member names) ns) ≡ ids_of ns
ids_of-relabel_member names [] = refl
ids_of-relabel_member names (n ∷ ns) =
    rw (relabel_member-id names n, ids_of-relabel_member names ns) refl

relabel_group-id : (fresh : SessionPlan) (g : GroupPlan) → (relabel_group fresh g).id ≡ g.id
unfolding relabel_group
relabel_group-id fresh g = elim (Option-cases (display_name_for_tag fresh g.id)) [
  | inl e ↦ rw (relabel_group, e) refl
  | inr (name, e) ↦ rw (relabel_group, e) refl
]

group_ids-relabel_group :
    (fresh : SessionPlan) (gs : List GroupPlan)
    → group_ids (map (relabel_group fresh) gs) ≡ group_ids gs
group_ids-relabel_group fresh [] = refl
group_ids-relabel_group fresh (g ∷ gs) =
    rw (relabel_group-id fresh g, group_ids-relabel_group fresh gs) refl

module _ {Raw : Type 0} (env : Env Raw) (os : Os) (cores : Cores) (down : Bool) where
  relabel_plan-IsRunning :
      (fresh : SessionPlan) (current : Node) (s : ℕ) (a : PersistedEntry) (id : String)
      (m : Manager Raw)
      → IsRunning m s a id
      → IsCoherent down (relabel_plan env os cores fresh current a m)
  unfolding relabel_plan save_last broadcast_state is_member member_tags node_tags
  relabel_plan-IsRunning fresh current s a id m w =
      let names = fresh_names (fresh_names [] fresh.natives) fresh.xray_nodes in
      let changed =
        any (λ n. renames (lookup n.id names) n.name) m.plan.natives
        || any (λ n. renames (lookup n.id names) n.name) m.plan.xray_nodes
        || any (λ g. renames (display_name_for_tag fresh g.id) g.name) m.plan.groups
        || not (is_name a.node (display_name current)) in
      elim (Bool-cases changed) [
        | inr e ↦ rw (relabel_plan, e) (inr (s, a, id, w))
        | inl e ↦
            rw (relabel_plan, e)
              (inr (
                s,
                _,
                id,
                record {
                  sess = w.sess;
                  active = refl;
                  node_id = w.node_id;
                  node = refl;
                  profile = w.profile;
                  member =
                      rw
                        (
                          ids_of-relabel_member names m.plan.natives,
                          ids_of-relabel_member names m.plan.xray_nodes,
                          group_ids-relabel_group fresh m.plan.groups,
                        )
                        w.member;
                  emitter = w.emitter;
                  opened = w.opened;
                  in_order = w.in_order;
                },
              ))
      ]

  decide-IsCoherent :
      (p : Profile) (s : ℕ) (a : PersistedEntry) (id selection : String) (current : Node)
      (m : Manager Raw)
      → IsRunning m s a id
      → IsCoherent down (decide env os cores p s a selection current m).0
  unfolding decide
  decide-IsCoherent p s a id selection current m w =
      let base = base_node p m.plan.active_tag current in
      elim (Result-cases (build_plan p base m.routing)) [
        | inr (bad, e) ↦ rw (decide, e) (inr (s, a, id, w))
        | inl ((fresh, warnings), e) ↦
            elim (Bool-cases (plan_members_equal env.digest m.plan fresh)) [
              | inr f ↦ rw (decide, e, f) (inr (s, a, id, w))
              | inl f ↦ rw (decide, e, f) (relabel_plan-IsRunning fresh current s a id m w)
            ]
      ]

  pub session_reconnect-IsCoherent :
      (profile_name : String) (p : Profile) (m : Manager Raw)
      → IsCoherent down m
      → IsCoherent down (session_reconnect env os cores profile_name p m).0
  unfolding session_reconnect
  session_reconnect-IsCoherent profile_name p m (inl w) = rw (session_reconnect, w.sess) (inl w)
  session_reconnect-IsCoherent profile_name p m (inr (s, a, id, w)) =
      elim (Option-cases (runs_on profile_name a)) [
        | inl e ↦ rw (session_reconnect, w.sess, w.active, e) (inr (s, a, id, w))
        | inr ((node, selection), e) ↦ elim (Option-cases (current_node p node selection)) [
          | inl f ↦ rw (session_reconnect, w.sess, w.active, e, f) (inr (s, a, id, w))
          | inr (current, f) ↦
              rw (session_reconnect, w.sess, w.active, e, f)
                (decide-IsCoherent p s a id selection current m w)
        ]
      ]

  pub reconnect_prepared-IsCoherent :
      (rc : SessionReconnect Raw) (prep : Activation) (m : Manager Raw)
      → IsPrepared env prep
      → IsCoherent down m
      → IsCoherent down (reconnect_prepared env os cores rc prep m).0
  unfolding reconnect_prepared
  reconnect_prepared-IsCoherent rc prep m made v =
      elim (Bool-cases (still_current env os cores rc m)) [
        | inr e ↦ rw (reconnect_prepared, e) v
        | inl e ↦
            rw (reconnect_prepared, e)
              (start_activation-IsCoherent env os cores down prep m
                (prepared-is_member env prep made) v)
      ]
