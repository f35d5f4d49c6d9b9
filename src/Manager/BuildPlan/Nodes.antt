-- ===== src/Manager/BuildPlan/Nodes.antt =====
-- The loop of `buildPlan` over the profile's nodes: what it embeds, counted by id.
use iron_link.Prelude.{
  ◌+◌, ◌≤◌, ◌<◌, String, ◌≡◌, Bool, true, not, List, [], ◌∷◌, ◌++◌, arith, ◌==◌, count,
  count-append, ok, >>=-eq-ok, map, delete_func, Result-cases, inl, inr, Bool-cases,
}
use iron_link.Proxy.Capabilities.{CoreType, core_sing_box}
use iron_link.Proxy.Selection.{select_core}
use iron_link.Store.Profile.{Node, is_group}
use iron_link.Engine.Plan.{NamedNode, ids_of}
use iron_link.Manager.BuildPlan.{Members, place_node, embed_node, embed_nodes, named_node}

abbrev pub tags_of : Members → List String
tags_of m = ids_of m.natives ++ ids_of m.xray_nodes

-- The ids of the nodes that are no groups.
abbrev pub dialable_ids : List Node → List String
dialable_ids ns = map (λ n. n.id) (delete_func is_group ns)

abbrev pub group_node_ids : List Node → List String
group_node_ids ns = map (λ n. n.id) (delete_func (λ n. not (is_group n)) ns)

count-ids_append :
    (a : String) (xs : List NamedNode) (n : NamedNode)
    → count a (ids_of (xs ++ n ∷ [])) ≡ count a (ids_of xs) + count a (n.id ∷ [])
count-ids_append a [] n = omega arith
count-ids_append a (x ∷ xs) n = omega (arith, count-ids_append a xs n)

-- A placed node adds its id at most once, and once for sure if it is the active one.
place_node-count :
    (active : Bool) (m m' : Members) (n : Node) (core : CoreType) (a : String)
    → place_node active m n core ≡ ok m'
    → (count a (tags_of m) ≤ count a (tags_of m'))
      × (count a (tags_of m') ≤ count a (tags_of m) + count a (n.id ∷ []))
      × (active ≡ true → count a (tags_of m') ≡ count a (tags_of m) + count a (n.id ∷ []))
unfolding place_node
place_node-count active m m' n core a h =
    let named = named_node n in
    ground (
      arith,
      count-append a (ids_of m.natives) (ids_of m.xray_nodes),
      count-append a (ids_of m'.natives) (ids_of m'.xray_nodes),
      count-ids_append a m.natives named,
      count-ids_append a m.xray_nodes named,
    )

-- A group's id is not embedded; any other node's id once at most, the active one's once.
embed_node-count :
    (active_id : String) (m m' : Members) (n : Node) (a : String)
    → embed_node active_id m n ≡ ok m'
    → (count a (tags_of m) ≤ count a (tags_of m'))
      × (count a (tags_of m') ≤ count a (tags_of m) + count a (dialable_ids (n ∷ [])))
      × ((n.id == active_id) ≡ true
          → count a (tags_of m') ≡ count a (tags_of m) + count a (dialable_ids (n ∷ [])))
unfolding embed_node
embed_node-count active_id m m' n a h = elim (Bool-cases (is_group n)) [
  | inl g ↦ ground arith
  | inr d ↦ elim (Result-cases (select_core n.doc core_sing_box n.preferences.core_override)) [
    | inl (core, e) ↦ ground (arith, place_node-count (n.id == active_id) m m' n core a)
    | inr (e, bad) ↦ ground arith
  ]
]

-- The whole loop: nothing embedded is lost, and no id is embedded more often than it stands among
-- the dialable nodes.
pub embed_nodes-count :
    (active_id : String) (m m' : Members) (ns : List Node) (a : String)
    → embed_nodes active_id m ns ≡ ok m'
    → (count a (tags_of m) ≤ count a (tags_of m'))
      × (count a (tags_of m') ≤ count a (tags_of m) + count a (dialable_ids ns))
unfolding embed_nodes
embed_nodes-count active_id m m' [] a h = ground arith
embed_nodes-count active_id m m' (n ∷ ns) a h =
    let (m1, first, later) =
      >>=-eq-ok (embed_node active_id m n) (λ x. embed_nodes active_id x ns) h in
    let one = embed_node-count active_id m m1 n a first in
    let rest = embed_nodes-count active_id m1 m' ns a later in ground arith

-- The active node, where it is no group, is embedded.
pub embed_nodes-active :
    (active_id : String) (m m' : Members) (ns : List Node)
    → embed_nodes active_id m ns ≡ ok m'
    → 0 < count active_id (dialable_ids ns)
    → 0 < count active_id (tags_of m')
unfolding embed_nodes
embed_nodes-active active_id m m' [] h k = absurd (omega arith)
embed_nodes-active active_id m m' (n ∷ ns) h k =
    let (m1, first, later) =
      >>=-eq-ok (embed_node active_id m n) (λ x. embed_nodes active_id x ns) h in
    let one = embed_node-count active_id m m1 n active_id first in
    let rest = embed_nodes-count active_id m1 m' ns active_id later in
    let again = embed_nodes-active active_id m1 m' ns later in
    elim (Bool-cases (n.id == active_id)) [ inl e ↦ ground arith | inr e ↦ ground arith ]
