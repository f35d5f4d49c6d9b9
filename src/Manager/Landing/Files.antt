-- ===== src/Manager/Landing/Files.antt =====
-- What deciding on a reconnect touches of the profile files.
use iron_link.Prelude.{
  String, ◌≡◌, refl, ◌||◌, not, any, lookup, some, [], Option-cases, Bool-cases, Result-cases, inl,
  inr,
}
use iron_link.Api.Reply.{PersistedEntry}
use iron_link.Store.Profile.{Profile, Node, display_name}
use iron_link.Store.Files.{
  Os, Disk, Codec, last_session_file, write_document, atomic_write, put_file, write_temp,
}
use iron_link.Store.Profiles.{save_last_session}
use iron_link.Engine.Plan.{SessionPlan, display_name_for_tag}
use iron_link.Manager.BuildPlan.{build_plan}
use iron_link.Manager.Prepare.{Env}
use iron_link.Manager.Session.{Cores, Manager, save_last, broadcast_state}
use iron_link.Manager.Session.Reconnect.{
  fresh_names, renames, is_name, base_node, relabel_plan, plan_members_equal, decide, runs_on,
  current_node, session_reconnect,
}

save_last_session-profiles :
    {Raw : Type 0} (c : Codec Raw) (os : Os) (context : PersistedEntry) (d : Disk Raw)
    → (save_last_session c os context d).0.profiles ≡ d.profiles
unfolding save_last_session write_document atomic_write put_file
save_last_session-profiles c os context d = elim (Result-cases (c.encode_session context)) [
  | inr (bad, e) ↦ rw (e, save_last_session, write_document) refl
  | inl (raw, e) ↦ elim (Result-cases (write_temp os last_session_file)) [
    | inr (bad, f) ↦ rw (e, f, save_last_session, write_document, atomic_write) refl
    | inl (u, f) ↦ rw (e, f, save_last_session, write_document, atomic_write) refl
  ]
]

module _ {Raw : Type 0} (env : Env Raw) (os : Os) (cores : Cores) where
  relabel_plan-profiles :
      (fresh : SessionPlan) (current : Node) (a : PersistedEntry) (m : Manager Raw)
      → (relabel_plan env os cores fresh current a m).disk.profiles ≡ m.disk.profiles
  unfolding relabel_plan broadcast_state save_last
  relabel_plan-profiles fresh current a m =
      let names = fresh_names (fresh_names [] fresh.natives) fresh.xray_nodes in
      let changed =
        any (λ n. renames (lookup n.id names) n.name) m.plan.natives
        || any (λ n. renames (lookup n.id names) n.name) m.plan.xray_nodes
        || any (λ g. renames (display_name_for_tag fresh g.id) g.name) m.plan.groups
        || not (is_name a.node (display_name current)) in
      let saved =
        save_last_session-profiles env.codec os (record a { node = some (display_name current) })
          m.disk in
      elim (Bool-cases changed) [
        | inl e ↦ rw (e, relabel_plan) saved
        | inr e ↦ rw (e, relabel_plan) refl
      ]

  pub session_reconnect-profiles :
      (name : String) (p : Profile) (m : Manager Raw)
      → (session_reconnect env os cores name p m).0.disk.profiles ≡ m.disk.profiles
  unfolding session_reconnect decide
  session_reconnect-profiles name p m = elim (Option-cases m.sess) [
    | inl e ↦ rw (e, session_reconnect) refl
    | inr (s, e) ↦ elim (Option-cases m.active) [
      | inl f ↦ rw (e, f, session_reconnect) refl
      | inr (a, f) ↦ elim (Option-cases (runs_on name a)) [
        | inl g ↦ rw (e, f, g, session_reconnect) refl
        | inr ((node, id), g) ↦ elim (Option-cases (current_node p node id)) [
          | inl k ↦ rw (e, f, g, k, session_reconnect) refl
          | inr (current, k) ↦
              elim (Result-cases (build_plan p (base_node p m.plan.active_tag current) m.routing)) [
                | inr (bad, l) ↦ rw (e, f, g, k, session_reconnect, l, decide) refl
                | inl ((fresh, warnings), l) ↦
                    elim (Bool-cases (plan_members_equal env.digest m.plan fresh)) [
                      | inl same ↦
                          rw (e, f, g, k, session_reconnect, l, same, decide)
                            (relabel_plan-profiles fresh current a m)
                      | inr apart ↦ rw (e, f, g, k, session_reconnect, l, apart, decide) refl
                    ]
              ]
        ]
      ]
    ]
  ]
