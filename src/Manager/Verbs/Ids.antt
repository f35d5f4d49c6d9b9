-- ===== src/Manager/Verbs/Ids.antt =====
-- The ids of the routing configs under the edits and under a refresh.
use iron_link.Prelude.{
  ℕ, String, false, ◌==◌, ◌≡◌, arith, any, Option, none, Result, ok, err, Option-cases,
  Result-cases, Bool-cases, inl, inr,
}
use iron_link.Proxy.Capabilities.{CoreType}
use iron_link.Routing
use iron_link.Store.Profile.{Profile, find_node, find_subscription, find_routing, new_node}
use iron_link.Store.Reread.{HasIds}
use iron_link.Store.Mutators.{replace_subscription_nodes, clear_lost_active}
use iron_link.Store.Invariant.{Mutation, apply}
use iron_link.Store.Invariant.Ids.{apply-HasIds}
use iron_link.Subscription.Refresh.{Outcome, FetchResult, land, fail, land_body, apply_fetch}
use iron_link.Manager.Verbs.{
  GroupUpsert, select_node, add_parsed_node, remove_node, set_node_prefs, group_spec, upsert_group,
  remove_sub, select_routing, upsert_routing, remove_routing_named,
}
use iron_link.Manager.Verbs.Kept.{
  Verb, choose_node, drop_node, drop_sub, choose_routing, drop_routing, put_link, prefer, put_group,
  put_routing, edit,
}

-- A new routing config gets an id that is not empty.
abbrev pub IsNamed : Verb → Type 0
IsNamed (put_routing rc fresh) = (fresh == "") ≡ false
IsNamed _ = Unit {0}

set_node_prefs-HasIds :
    (ref : String) (core : Option CoreType) (p : Profile)
    → HasIds p
    → HasIds (set_node_prefs ref core p).0
unfolding set_node_prefs
set_node_prefs-HasIds ref core p h = ground arith

upsert_group-HasIds :
    (g : GroupUpsert) (fresh : String) (p : Profile) → HasIds p → HasIds (upsert_group g fresh p).0
unfolding upsert_group apply
upsert_group-HasIds g fresh p h = elim (Result-cases (group_spec p g)) [
  | inl (spec, e) ↦ elim (Bool-cases (g.id == "")) [
    | inl new ↦ rw (e, new, upsert_group) (apply-HasIds (Mutation.put_group spec fresh) p tt h)
    | inr old ↦ rw (e, old, upsert_group) (apply-HasIds (Mutation.edit_group g.id spec) p tt h)
  ]
  | inr (bad, e) ↦ rw (e, upsert_group) h
]

upsert_routing-HasIds :
    (rc : Routing.Config) (fresh : String) (p : Profile)
    → (fresh == "") ≡ false
    → HasIds p
    → HasIds (upsert_routing rc fresh p).0
unfolding upsert_routing apply
upsert_routing-HasIds rc fresh p named h =
    elim (Bool-cases (any (λ r. r.id == rc.id) p.routing_configs)) [
      | inl old ↦ rw (old, upsert_routing) (apply-HasIds (Mutation.edit_routing rc.id rc) p tt h)
      | inr new ↦ rw (new, upsert_routing) (apply-HasIds (Mutation.put_routing rc fresh) p named h)
    ]

-- Every edit leaves the routing configs with their ids.
pub edit-HasIds : (w : Verb) (p : Profile) → IsNamed w → HasIds p → HasIds (edit w p).0
unfolding edit apply select_node remove_node remove_sub select_routing remove_routing_named
    add_parsed_node
edit-HasIds (choose_node ref) p k h = elim (Option-cases (find_node p ref)) [
  | inl e ↦ rw (e, select_node) h
  | inr (n, e) ↦ rw (e, select_node) (apply-HasIds (Mutation.choose_node n.id) p tt h)
]
edit-HasIds (drop_node ref) p k h = elim (Option-cases (find_node p ref)) [
  | inl e ↦ rw (e, remove_node) h
  | inr (n, e) ↦ rw (e, remove_node) (apply-HasIds (Mutation.drop_node n.id) p tt h)
]
edit-HasIds (drop_sub ref) p k h = elim (Option-cases (find_subscription p ref)) [
  | inl e ↦ rw (e, remove_sub) h
  | inr (s, e) ↦ rw (e, remove_sub) (apply-HasIds (Mutation.drop_sub s.id) p tt h)
]
edit-HasIds (choose_routing ref) p k h = elim (Option-cases (find_routing p ref)) [
  | inl e ↦ rw (e, select_routing) h
  | inr (r, e) ↦ rw (e, select_routing) (apply-HasIds (Mutation.choose_routing r.id) p tt h)
]
edit-HasIds (drop_routing ref) p k h = elim (Option-cases (find_routing p ref)) [
  | inl e ↦ rw (e, remove_routing_named) h
  | inr (r, e) ↦ rw (e, remove_routing_named) (apply-HasIds (Mutation.drop_routing r.id) p tt h)
]
edit-HasIds (put_link (err e) fresh) p k h = h
edit-HasIds (put_link (ok parsed) fresh) p k h =
    apply-HasIds (Mutation.put_node (new_node parsed none fresh)) p tt h
edit-HasIds (prefer ref core) p k h = set_node_prefs-HasIds ref core p h
edit-HasIds (put_group g fresh) p k h = upsert_group-HasIds g fresh p h
edit-HasIds (put_routing rc fresh) p k h = upsert_routing-HasIds rc fresh p k h

module _ (from_name : String → String) (parse : String → String → String → Result String Outcome)
    (now : ℕ) where
  pub apply_fetch-HasIds :
      (p : Profile) (fr : FetchResult) → HasIds p → HasIds (apply_fetch from_name parse now p fr).0
  unfolding apply_fetch land_body fail land replace_subscription_nodes clear_lost_active
  apply_fetch-HasIds p fr h = ground arith
