-- ===== src/Subscription/Refresh.antt =====
-- `Apply`, the store half of a refresh (daemon-go/internal/subscription/subscription.go). The parsers
-- of the dialects, `uuid.FromName` and the clock are arguments.
pub mod Kept
pub mod Valid
use Prim.Native.String
use iron_link.Prelude.{
  ℕ, suc, zero, ◌+◌, String, Bool, true, false, not, ◌||◌, ◌&&◌, ◌==◌, ◌++◌, Option, none, some,
  List, [], ◌∷◌, map, any, find, delete_func, length, is_empty, replace_first, if◌then◌else◌,
  Result, ok, err, is_some,
}
use iron_link.Store.Profile.{
  Profile, Node, NodePrefs, GroupSpec, GroupProbe, Subscription, is_group,
}
use iron_link.Store.Mutators.{of_sub, replace_subscription_nodes}
use iron_link.Subscription.Keys.{PrefsKey, node_key, same_key, last_with}

pub record GroupOut : Type 0 where
  pub name : String
  pub member_keys : List PrefsKey
  pub probe : GroupProbe

pub record Outcome : Type 0 where
  pub format : String
  pub nodes : List Node
  pub groups : List GroupOut
  pub entries : ℕ
  pub duplicates : ℕ
  pub unrecognized : ℕ

-- The body, or the text of the fetch error.
pub record FetchResult : Type 0 where
  pub sub_id : String
  pub name : String
  pub url : String
  pub format : String
  pub body : Result String String

pub record Refreshed : Type 0 where
  pub sub_id : String
  pub name : String
  pub count : ℕ
  pub added : ℕ
  pub removed : ℕ
  pub skipped : Bool
  pub discarded : Bool
  pub error : String
  pub format : String
  pub entries : ℕ
  pub duplicates : ℕ
  pub unrecognized : ℕ

-- One round of the second loop of `reconcile`: the id and the core override of the old node.
unfoldable pub carry : List Node → Node → Node
carry old n = elim (last_with node_key old (node_key n)) [
  | none ↦ n
  | some saved ↦ (elim saved.preferences.core_override [
    | none ↦ record n { id = saved.id }
    | some core ↦ record n { id = saved.id; preferences = record { core_override = some core } }
  ])
]

abbrev pub nodes_of : Profile → String → List Node
nodes_of p sub_id = delete_func (λ n. not (of_sub sub_id n)) p.nodes

unfoldable pub reconcile : Profile → String → List Node → List Node
reconcile p sub_id = map (carry (nodes_of p sub_id))

-- The members of a provider's group, by the keys of the nodes.
member_ids : List Node → List PrefsKey → List String
member_ids nodes [] = []
member_ids nodes (k ∷ ks) =
    let rest = member_ids nodes ks in
    elim (last_with node_key nodes k) [ none ↦ rest | some n ↦ n.id ∷ rest ]

abbrev group_seed : String → String → String
group_seed sub_id name = String.◌++◌ "group:" (String.◌++◌ sub_id (String.◌++◌ ":" name))

unfoldable pub materialize_groups :
    (String → String) → List GroupOut → List Node → String → List Node
unfolding member_ids
materialize_groups from_name [] nodes sub_id = []
materialize_groups from_name (g ∷ gs) nodes sub_id =
    let members = member_ids nodes g.member_keys in
    let rest = materialize_groups from_name gs nodes sub_id in
    let node : Node = record {
      id = from_name (group_seed sub_id g.name);
      sub_id = some sub_id;
      doc = none;
      group =
          some (record { name = g.name; members = members; all_of_sub = none; probe = g.probe });
      preferences = record { core_override = none };
    } in
    if is_empty members then rest else node ∷ rest

-- The keys of the dialable nodes, each once: a Go map's keys.
abbrev has_node_key : List Node → PrefsKey → Bool
has_node_key ns k = any (λ n. same_key (node_key n) k) ns

abbrev distinct_keys : List Node → List Node
distinct_keys [] = []
distinct_keys (n ∷ ns) =
    let rest = distinct_keys ns in if has_node_key ns (node_key n) then rest else n ∷ rest

unfoldable pub diff_nodes : Profile → String → List Node → ℕ × ℕ
diff_nodes p sub_id new_nodes =
    let old = delete_func is_group (nodes_of p sub_id) in
    let fresh = delete_func is_group new_nodes in
    (
      length (delete_func (λ n. has_node_key old (node_key n)) fresh),
      length (delete_func (λ n. has_node_key fresh (node_key n)) (distinct_keys old)),
    )

-- A write through the pointer to the subscription.
abbrev pub update_sub : String → (Subscription → Subscription) → Profile → Profile
update_sub id f p = record p { subscriptions = replace_first (λ s. s.id == id) f p.subscriptions }

abbrev blank : FetchResult → String → Refreshed
blank fr name = record {
  sub_id = fr.sub_id;
  name = name;
  count = 0;
  added = 0;
  removed = 0;
  skipped = false;
  discarded = false;
  error = "";
  format = "";
  entries = 0;
  duplicates = 0;
  unrecognized = 0;
}

module _ (from_name : String → String) (parse : String → String → String → Result String Outcome)
    (now : ℕ) where
  -- The nodes that a parsed body puts in place of the old ones.
  unfoldable pub landed_nodes : Profile → String → Outcome → List Node
  landed_nodes p sub_id o =
      let new_nodes = reconcile p sub_id o.nodes in
      let groups = reconcile p sub_id (materialize_groups from_name o.groups new_nodes sub_id) in
      new_nodes ++ groups

  unfoldable pub land : Profile → FetchResult → String → Outcome → Profile × Refreshed
  land p fr name o =
      let all_nodes = landed_nodes p fr.sub_id o in
      let (added, removed) = diff_nodes p fr.sub_id all_nodes in
      (
        update_sub fr.sub_id (λ s. record s { last_updated = now; last_error = "" })
            (replace_subscription_nodes p fr.sub_id all_nodes),
        record (blank fr name) {
          count = length o.nodes;
          added = added;
          removed = removed;
          format = o.format;
          entries = o.entries;
          duplicates = o.duplicates;
          unrecognized = o.unrecognized;
        },
      )

  -- A fetch or parse error: recorded, with the old nodes kept.
  unfoldable pub fail : Profile → FetchResult → String → String → Profile × Refreshed
  fail p fr name message = (
    update_sub fr.sub_id (λ s. record s { last_error = message }) p,
    record (blank fr name) { error = message },
  )

  unfoldable pub land_body : Profile → FetchResult → String → Profile × Refreshed
  land_body p fr name = elim fr.body [
    | err message ↦ fail p fr name message
    | ok body ↦ (elim (parse body fr.sub_id fr.format) [
      | err message ↦ fail p fr name message
      | ok o ↦ land p fr name o
    ])
  ]

  unfoldable pub apply_fetch : Profile → FetchResult → Profile × Refreshed
  apply_fetch p fr = elim (find (λ s. s.id == fr.sub_id) p.subscriptions) [
    | none ↦ (p, record (blank fr fr.name) { discarded = true })
    | some sub ↦
        if not (sub.url == fr.url)
        then (p, record (blank fr fr.name) { discarded = true })
        else land_body p fr sub.name
  ]
