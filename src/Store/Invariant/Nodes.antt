-- ===== src/Store/Invariant/Nodes.antt =====
-- The active node under the mutators of the nodes.
use iron_link.Prelude.{
  String, ◌≡◌, refl, Bool, true, false, not, Option, none, some, List, [], ◌∷◌, ◌++◌, arith, ◌==◌,
  eq_iff, eq_refl, find, any, has_key, has_key-append, has_key-replace_first, has_key-delete_other,
  selects, is_some-find, delete_func, length, delete_func-id, length-delete_func-lt, eqb,
  Option-cases, Bool-cases, inl, inr, replace_first, ◌∙◌,
}
use iron_link.Store.Profile.{Profile, Node, GroupSpec, is_group, new_group_node}
use iron_link.Store.Mutators.{
  set_active_node_if_unset, add_node, add_group, replace_group_by_id, remove_node_by_id,
  set_active_node, replace_subscription_nodes, remove_subscription, points_at, clear_lost_active,
  of_sub,
}
use iron_link.Store.Invariant.Defs.{node_id}

abbrev pub HasActive : Profile → Type 0
HasActive p = selects node_id p.active_node_id p.nodes ≡ true

-- The id of a node that a search returns stands in the list.
found-has_key :
    (q : Node → Bool) (ns : List Node) (n : Node)
    → find q ns ≡ some n
    → has_key node_id ns n.id ≡ true
found-has_key q [] n h = cc
found-has_key q (m ∷ ms) n h = ground (arith, found-has_key q ms n, eq_refl n.id, eq_iff m.id n.id)

selects-append :
    (a : Option String) (xs ys : List Node)
    → selects node_id a xs ≡ true
    → selects node_id a (xs ++ ys) ≡ true
selects-append none xs ys h = refl
selects-append (some a) xs ys h = ground (arith, has_key-append node_id xs ys a)

pub set_active_node_if_unset-HasActive :
    (p : Profile) → HasActive p → HasActive (set_active_node_if_unset p).0
unfolding set_active_node_if_unset
set_active_node_if_unset-HasActive p h =
    elim (Option-cases (find (λ n. not (is_group n)) p.nodes)) [
      | inl e ↦ ground arith
      | inr (n, e) ↦ ground (arith, found-has_key (λ m. not (is_group m)) p.nodes n e)
    ]

pub add_node-HasActive : (p : Profile) (n : Node) → HasActive p → HasActive (add_node p n).0
unfolding add_node
add_node-HasActive p n h =
    set_active_node_if_unset-HasActive (record p { nodes = p.nodes ++ n ∷ [] })
      (selects-append p.active_node_id p.nodes (n ∷ []) h)

pub add_group-HasActive :
    (p : Profile) (g : GroupSpec) (fresh : String) → HasActive p → HasActive (add_group p g fresh).0
unfolding add_group
add_group-HasActive p g fresh h =
    ground (arith, selects-append p.active_node_id p.nodes (new_group_node g none fresh ∷ []) h)

selects-replace_group :
    (a : Option String) (id : String) (g : GroupSpec) (ns : List Node)
    → selects node_id a ns ≡ true
    → selects node_id a (replace_first (λ m. m.id == id) (λ m. record m { group = some g }) ns)
      ≡ true
selects-replace_group none id g ns h = refl
selects-replace_group (some a) id g ns h =
    has_key-replace_first node_id (λ m. record m { group = some g }) ns id a (λ m _. refl) ∙ h

pub replace_group_by_id-HasActive :
    (p : Profile) (id : String) (g : GroupSpec)
    → HasActive p
    → HasActive (replace_group_by_id p id g).0
unfolding replace_group_by_id
replace_group_by_id-HasActive p id g h =
    ground (arith, selects-replace_group p.active_node_id id g p.nodes h)

selects-delete :
    (a : Option String) (id : String) (ns : List Node)
    → selects node_id a ns ≡ true
    → points_at a id ≡ false
    → selects node_id a (delete_func (λ n. n.id == id) ns) ≡ true
selects-delete none id ns h k = refl
selects-delete (some a) id ns h k =
    has_key-delete_other node_id ns id a (ground (arith, eq_iff a id, eq_iff id a)) ∙ h

-- With nothing removed the list is the old one.
same_length-delete :
    (id : String) (ns : List Node)
    → eqb (length (delete_func (λ n. n.id == id) ns)) (length ns) ≡ true
    → delete_func (λ n. n.id == id) ns ≡ ns
same_length-delete id ns e = elim (Bool-cases (any (λ n. n.id == id) ns)) [
  | inl found ↦ absurd (ground (arith, length-delete_func-lt (λ n. n.id == id) ns found))
  | inr absent ↦ delete_func-id (λ n. n.id == id) ns absent
]

pub remove_node_by_id-HasActive :
    (p : Profile) (id : String) → HasActive p → HasActive (remove_node_by_id p id).0
unfolding remove_node_by_id
remove_node_by_id-HasActive p id h =
    elim (Bool-cases (eqb (length (delete_func (λ n. n.id == id) p.nodes)) (length p.nodes))) [
      | inl e ↦ rw e (rw (same_length-delete id p.nodes e) h)
      | inr e ↦ elim (Bool-cases (points_at p.active_node_id id)) [
        | inl k ↦ rw (e, k) refl
        | inr k ↦ rw (e, k) (selects-delete p.active_node_id id p.nodes h k)
      ]
    ]

pub set_active_node-HasActive :
    (p : Profile) (id : String) → HasActive p → HasActive (set_active_node p id).0
unfolding set_active_node
set_active_node-HasActive p id h = ground (arith, is_some-find (λ n. n.id == id) p.nodes)

-- Whatever the selection was, clearing a lost one leaves a selection of a member.
clear_lost_active-HasActive : (p : Profile) → HasActive (clear_lost_active p)
unfolding clear_lost_active
clear_lost_active-HasActive p = elim (Option-cases p.active_node_id) [
  | inl e ↦ ground arith
  | inr (id, e) ↦ ground (arith, is_some-find (λ n. n.id == id) p.nodes)
]

pub replace_subscription_nodes-HasActive :
    (p : Profile) (sub_id : String) (ns : List Node)
    → HasActive (replace_subscription_nodes p sub_id ns)
unfolding replace_subscription_nodes
replace_subscription_nodes-HasActive p sub_id ns =
    let q = record p { nodes = delete_func (of_sub sub_id) p.nodes ++ ns } in
    set_active_node_if_unset-HasActive (clear_lost_active q) (clear_lost_active-HasActive q)

pub remove_subscription-HasActive :
    (p : Profile) (id : String) → HasActive p → HasActive (remove_subscription p id).0
unfolding remove_subscription
remove_subscription-HasActive p id h =
    elim (Bool-cases
      (eqb (length (delete_func (λ s. s.id == id) p.subscriptions)) (length p.subscriptions))) [
        | inl e ↦ rw e h
        | inr e ↦ rw e (
            replace_subscription_nodes-HasActive
              (record p { subscriptions = delete_func (λ s. s.id == id) p.subscriptions }) id [])
      ]
