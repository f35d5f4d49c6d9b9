-- ===== src/Manager/Session/Reconnect.antt =====
-- What a change of the profile means for the running session: the decision, the relabelling and the
-- reconnect (daemon-go/cmd/iron-link-daemon/manager_subscriptions.go). The log lines are left out.
use Prim.Native.String.{compare}
use Prim.Native.Nat.{Ordering}
use iron_link.Prelude.{
  ℕ, String, Bool, true, false, not, ◌==◌, ◌&&◌, ◌||◌, eqb, Option, none, some, List, [], ◌∷◌, map,
  all, find, any, length, lookup, insert, if◌then◌else◌, ok, err,
}
use iron_link.Proxy.Profile as Proxy
use iron_link.Api.Request.{Request}
use iron_link.Api.Reply.{PersistedEntry}
use iron_link.Store.Profile.{Profile, Node, display_name, find_node_by_id, find_node_by_name}
use iron_link.Store.Files.{Os}
use iron_link.Engine.Plan.{NamedNode, GroupPlan, SessionPlan, display_name_for_tag}
use iron_link.Manager.BuildPlan.{build_plan}
use iron_link.Manager.Prepare.{Env, Activation, prepare_activation}
use iron_link.Manager.Session.{Cores, Manager, Reply, save_last, broadcast_state, start_activation}
use iron_link.Manager.Session.Handlers.{reactivation}

module _ (digest : Option Proxy.Profile → String) where
  -- The map from ids to digests; a later member overrides an earlier one.
  unfoldable pub index_members : List (String × String) → List NamedNode → List (String × String)
  index_members index [] = index
  index_members index (n ∷ ns) = index_members (insert n.id (digest n.profile) index) ns

  abbrev pub same_digest : List (String × String) → NamedNode → Bool
  same_digest index n = elim (lookup n.id index) [ none ↦ false | some d ↦ d == digest n.profile ]

  unfoldable pub member_sets_equal : List NamedNode → List NamedNode → Bool
  unfolding index_members
  member_sets_equal a b = eqb (length a) (length b) && all (same_digest (index_members [] a)) b

  abbrev at_most : String → String → Bool
  at_most a b = elim (compare a b) [ Ordering.gt ↦ false | _ ↦ true ]

  abbrev insert_sorted : String → List String → List String
  insert_sorted a [] = a ∷ []
  insert_sorted a (b ∷ bs) = if at_most a b then a ∷ b ∷ bs else b ∷ insert_sorted a bs

  -- `slices.Sort`
  abbrev pub sort : List String → List String
  sort [] = []
  sort (a ∷ rest) = insert_sorted a (sort rest)

  -- `slices.Equal`
  abbrev pub equal : List String → List String → Bool
  equal [] [] = true
  equal (a ∷ xs) (b ∷ ys) = a == b && equal xs ys
  equal _ _ = false

  unfoldable pub string_sets_equal : List String → List String → Bool
  string_sets_equal a b = eqb (length a) (length b) && equal (sort a) (sort b)

  abbrev pub same_group : List GroupPlan → GroupPlan → Bool
  same_group groups g = elim (find (λ h. h.id == g.id) groups) [
    | none ↦ false
    | some h ↦ string_sets_equal g.members h.members
  ]

  unfoldable pub plan_members_equal : SessionPlan → SessionPlan → Bool
  unfolding member_sets_equal string_sets_equal
  plan_members_equal a b =
      member_sets_equal a.natives b.natives
      && member_sets_equal a.xray_nodes b.xray_nodes
      && eqb (length a.groups) (length b.groups)
      && all (same_group b.groups) a.groups

-- `*ptr == name`, false on nil
abbrev pub is_name : Option String → String → Bool
is_name none name = false
is_name (some a) name = a == name

unfoldable pub fresh_names : List (String × String) → List NamedNode → List (String × String)
fresh_names names [] = names
fresh_names names (n ∷ ns) = fresh_names (insert n.id n.name names) ns

unfoldable pub relabel_member : List (String × String) → NamedNode → NamedNode
relabel_member names n = elim (lookup n.id names) [
  | none ↦ n
  | some name ↦ record n { name = name }
]

abbrev pub renames : Option String → String → Bool
renames none old = false
renames (some name) old = not (name == old)

unfoldable pub relabel_group : SessionPlan → GroupPlan → GroupPlan
relabel_group fresh g = elim (display_name_for_tag fresh g.id) [
  | none ↦ g
  | some name ↦ record g { name = name }
]

-- A decided re-activation, with the session and the selection that it was decided against.
pub record SessionReconnect (Raw : Type 0) : Type 0 where
  pub req : Request Raw
  pub sess : ℕ
  pub selection : String

-- The node and its id, where the context runs on the profile and names both.
unfoldable pub runs_on : String → PersistedEntry → Option (String × String)
runs_on profile_name a = elim a.node [
  | none ↦ none
  | some node ↦ (elim a.node_id [
    | none ↦ none
    | some id ↦ if is_name a.profile profile_name then some (node, id) else none
  ])
]

-- The current selection in the new profile.
unfoldable pub current_node : Profile → String → String → Option Node
current_node p node id = elim (find_node_by_id p id) [
  | some n ↦ some n
  | none ↦ find_node_by_name p node
]

abbrev pub base_node : Profile → String → Node → Node
base_node p tag current = elim (find_node_by_id p tag) [ none ↦ current | some n ↦ n ]

module _ {Raw : Type 0} (env : Env Raw) (os : Os) (cores : Cores) where
  -- `relabelPlanLocked`, for the running context `a`
  unfoldable pub relabel_plan : SessionPlan → Node → PersistedEntry → Manager Raw → Manager Raw
  unfolding fresh_names relabel_member relabel_group save_last broadcast_state
  relabel_plan fresh current a m =
      let names = fresh_names (fresh_names [] fresh.natives) fresh.xray_nodes in
      let name = display_name current in
      let changed =
        any (λ n. renames (lookup n.id names) n.name) m.plan.natives
        || any (λ n. renames (lookup n.id names) n.name) m.plan.xray_nodes
        || any (λ g. renames (display_name_for_tag fresh g.id) g.name) m.plan.groups
        || not (is_name a.node name) in
      let context = record a { node = some name } in
      let plan = record m.plan {
        natives = map (relabel_member names) m.plan.natives;
        xray_nodes = map (relabel_member names) m.plan.xray_nodes;
        groups = map (relabel_group fresh) m.plan.groups;
      } in
      if changed
      then broadcast_state cores
          (save_last env os context (record m { plan = plan; active = some context }))
      else m

  -- The decision for the session `s` in the context `a`, whose selection is now the node `current`.
  unfoldable pub decide :
      Profile
      → ℕ
      → PersistedEntry
      → String
      → Node
      → Manager Raw
      → Manager Raw × Option (SessionReconnect Raw)
  unfolding relabel_plan plan_members_equal
  decide p s a selection current m =
      elim (build_plan p (base_node p m.plan.active_tag current) m.routing) [
        | err _ ↦ (m, none)
        | ok (fresh, _) ↦
            if plan_members_equal env.digest m.plan fresh
            then (relabel_plan fresh current a m, none)
            else (
              m,
              some (record {
                req = reactivation env os cores a (some current.id);
                sess = s;
                selection = selection;
              }),
            )
      ]

  -- `sessionReconnectLocked`
  unfoldable pub session_reconnect :
      String → Profile → Manager Raw → Manager Raw × Option (SessionReconnect Raw)
  unfolding runs_on current_node decide
  session_reconnect profile_name p m = elim m.sess [
    | none ↦ (m, none)
    | some s ↦ (elim m.active [
      | none ↦ (m, none)
      | some a ↦ (elim (runs_on profile_name a) [
        | none ↦ (m, none)
        | some (node, id) ↦ (elim (current_node p node id) [
          | none ↦ (m, none)
          | some current ↦ decide p s a id current m
        ])
      ])
    ])
  ]

  -- The session and the selection are still those of the decision.
  unfoldable pub still_current : SessionReconnect Raw → Manager Raw → Bool
  still_current rc m = elim m.sess [
    | none ↦ false
    | some s ↦ (elim m.active [
      | none ↦ false
      | some a ↦ eqb s rc.sess && is_name a.node_id rc.selection
    ])
  ]

  -- The locked half of `reconnectSession`, with the prepared activation.
  unfoldable pub reconnect_prepared :
      SessionReconnect Raw → Activation → Manager Raw → Manager Raw × Option Reply
  unfolding still_current start_activation
  reconnect_prepared rc prep m =
      let (m', reply) = start_activation env os cores prep m in
      if still_current rc m then (m', some reply) else (m, none)

  unfoldable pub reconnect_session :
      Option String → SessionReconnect Raw → Manager Raw → Manager Raw × Option Reply
  unfolding reconnect_prepared
  reconnect_session privilege rc m = elim (prepare_activation env os privilege m.disk rc.req) [
    | err _ ↦ (m, none)
    | ok prep ↦ reconnect_prepared rc prep m
  ]
