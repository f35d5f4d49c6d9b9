-- ===== src/Manager/Verbs/Kept.antt =====
-- The invariant of a profile under the edits of one verb each. The verbs on subscriptions that fetch or
-- update are in Updated.antt.
use iron_link.Prelude.{
  String, true, false, ◌≡◌, refl, ◌∙◌, ◌==◌, any, has_key, has_key-replace_first, selects, Option,
  none, some, List, replace_first, Result, ok, err, Option-cases, Result-cases, Bool-cases, inl,
  inr, arith, if◌then◌else◌,
}
use iron_link.Proxy.Profile as Proxy
use iron_link.Proxy.Capabilities.{CoreType}
use iron_link.Routing
use iron_link.Store.Profile.{
  Profile, Node, is_group, find_node, find_subscription, find_routing, new_node,
}
use iron_link.Store.Invariant.{IsValid, Mutation, apply, apply-IsValid}
use iron_link.Manager.Verbs.{
  GroupUpsert, Edit, select_node, add_parsed_node, remove_node, set_node_prefs, group_spec,
  upsert_group, remove_sub, select_routing, upsert_routing, remove_routing_named,
}

-- The edit of a verb, with what it takes from its request; the last text of three of them is the id
-- that `uuid.New` gives.
pub data Verb : Type 0 where
  choose_node drop_node drop_sub choose_routing drop_routing : String → Verb
  put_link : Result String Proxy.Profile → String → Verb
  prefer : String → Option CoreType → Verb
  put_group : GroupUpsert → String → Verb
  put_routing : Routing.Config → String → Verb

unfoldable pub edit : Verb → Edit String
edit (choose_node ref) = select_node ref
edit (drop_node ref) = remove_node ref
edit (drop_sub ref) = remove_sub ref
edit (choose_routing ref) = select_routing ref
edit (drop_routing ref) = remove_routing_named ref
edit (put_link parsed fresh) = add_parsed_node parsed fresh
edit (prefer ref core) = set_node_prefs ref core
edit (put_group g fresh) = upsert_group g fresh
edit (put_routing rc fresh) = upsert_routing rc fresh

-- A new routing config gets an id that no stored config has.
abbrev pub IsFresh : Verb → Profile → Type 0
IsFresh (put_routing rc fresh) p = has_key (λ r. r.id) p.routing_configs fresh ≡ false
IsFresh _ _ = Unit {0}

selects-prefer :
    (a : Option String) (core : Option CoreType) (id : String) (ns : List Node)
    → selects (λ m. m.id) a ns ≡ true
    → selects
        (λ m. m.id)
        a
        (replace_first
          (λ m. m.id == id)
          (λ m. record m { preferences = record { core_override = core } })
          ns)
      ≡ true
selects-prefer none core id ns h = refl
selects-prefer (some a) core id ns h =
    has_key-replace_first (λ m. m.id)
      (λ m. record m { preferences = record { core_override = core } }) ns id a (λ m _. refl)
    ∙ h

set_node_prefs-IsValid :
    (ref : String) (core : Option CoreType) (p : Profile)
    → IsValid p
    → IsValid (set_node_prefs ref core p).0
unfolding set_node_prefs
set_node_prefs-IsValid ref core p v = elim (Option-cases (find_node p ref)) [
  | inl e ↦ rw (e, set_node_prefs) v
  | inr (n, e) ↦ elim (Bool-cases (is_group n)) [
    | inl g ↦ rw (e, g, set_node_prefs) v
    | inr g ↦
        rw (e, g, set_node_prefs)
          (record {
            active_node = selects-prefer p.active_node_id core n.id p.nodes v.active_node;
            active_routing = v.active_routing;
            urls = v.urls;
            ids = v.ids;
            names = v.names;
            valid_names = v.valid_names;
          })
  ]
]

upsert_group-IsValid :
    (g : GroupUpsert) (fresh : String) (p : Profile)
    → IsValid p
    → IsValid (upsert_group g fresh p).0
unfolding upsert_group apply
upsert_group-IsValid g fresh p v = elim (Result-cases (group_spec p g)) [
  | inr (bad, e) ↦ rw (e, upsert_group) v
  | inl (spec, e) ↦ elim (Bool-cases (g.id == "")) [
    | inl new ↦ rw (e, new, upsert_group) (apply-IsValid (Mutation.put_group spec fresh) p tt v)
    | inr old ↦ rw (e, old, upsert_group) (apply-IsValid (Mutation.edit_group g.id spec) p tt v)
  ]
]

upsert_routing-IsValid :
    (rc : Routing.Config) (fresh : String) (p : Profile)
    → has_key (λ r. r.id) p.routing_configs fresh ≡ false
    → IsValid p
    → IsValid (upsert_routing rc fresh p).0
unfolding upsert_routing apply
upsert_routing-IsValid rc fresh p unused v =
    elim (Bool-cases (any (λ r. r.id == rc.id) p.routing_configs)) [
      | inl old ↦ rw (old, upsert_routing) (apply-IsValid (Mutation.edit_routing rc.id rc) p tt v)
      | inr new ↦
          let admissible : has_key (λ r. r.id) p.routing_configs
                (if rc.id == "" then fresh else rc.id)
              ≡ false =
            ground arith in
          rw (new, upsert_routing) (apply-IsValid (Mutation.put_routing rc fresh) p admissible v)
    ]

-- Every edit, succeeding or failing, keeps the profile valid.
pub edit-IsValid : (w : Verb) (p : Profile) → IsFresh w p → IsValid p → IsValid (edit w p).0
unfolding edit apply select_node remove_node remove_sub select_routing remove_routing_named
    add_parsed_node
edit-IsValid (choose_node ref) p k v = elim (Option-cases (find_node p ref)) [
  | inl e ↦ rw (e, select_node) v
  | inr (n, e) ↦ rw (e, select_node) (apply-IsValid (Mutation.choose_node n.id) p tt v)
]
edit-IsValid (drop_node ref) p k v = elim (Option-cases (find_node p ref)) [
  | inl e ↦ rw (e, remove_node) v
  | inr (n, e) ↦ rw (e, remove_node) (apply-IsValid (Mutation.drop_node n.id) p tt v)
]
edit-IsValid (drop_sub ref) p k v = elim (Option-cases (find_subscription p ref)) [
  | inl e ↦ rw (e, remove_sub) v
  | inr (s, e) ↦ rw (e, remove_sub) (apply-IsValid (Mutation.drop_sub s.id) p tt v)
]
edit-IsValid (choose_routing ref) p k v = elim (Option-cases (find_routing p ref)) [
  | inl e ↦ rw (e, select_routing) v
  | inr (r, e) ↦ rw (e, select_routing) (apply-IsValid (Mutation.choose_routing r.id) p tt v)
]
edit-IsValid (drop_routing ref) p k v = elim (Option-cases (find_routing p ref)) [
  | inl e ↦ rw (e, remove_routing_named) v
  | inr (r, e) ↦ rw (e, remove_routing_named) (apply-IsValid (Mutation.drop_routing r.id) p tt v)
]
edit-IsValid (put_link (err e) fresh) p k v = v
edit-IsValid (put_link (ok parsed) fresh) p k v =
    apply-IsValid (Mutation.put_node (new_node parsed none fresh)) p tt v
edit-IsValid (prefer ref core) p k v = set_node_prefs-IsValid ref core p v
edit-IsValid (put_group g fresh) p k v = upsert_group-IsValid g fresh p v
edit-IsValid (put_routing rc fresh) p k v = upsert_routing-IsValid rc fresh p k v
