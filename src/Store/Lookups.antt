-- ===== src/Store/Lookups.antt =====
-- Names and ids in a profile (the accessors of daemon-go/internal/store/profile.go).
use iron_link.Prelude.{
  String, ◌≡◌, refl, true, not, ◌&&◌, ◌==◌, eq_iff, some, arith, find, find_sound, find-key, any,
  is_some-find, has_key, Option-cases, inl, inr,
}
use iron_link.Store.Profile.{
  Profile, Node, is_group, display_name, find_node_by_name, find_node_by_id, find_node,
}

-- A lookup by name returns a node with that name, and a group only if no dialable node has the name.
pub find_node_by_name_sound :
    (p : Profile) (name : String) (n : Node)
    → find_node_by_name p name ≡ some n
    → (display_name n ≡ name)
      × (is_group n ≡ not (any (λ m. not (is_group m) && display_name m == name) p.nodes))
unfolding find_node_by_name
find_node_by_name_sound p name n h =
    let dialable = λ (m : Node). not (is_group m) && display_name m == name in
    let group = λ (m : Node). is_group m && display_name m == name in
    let known = is_some-find dialable p.nodes in
    elim (Option-cases (find dialable p.nodes)) [
      | inr (m, e) ↦
          let passed = find_sound dialable p.nodes m e in
          (ground (arith, passed, eq_iff (display_name m) name), ground (arith, passed, known))
      | inl e ↦
          let passed = find_sound group p.nodes n (ground arith) in
          (ground (arith, passed, eq_iff (display_name n) name), ground (arith, passed, known))
    ]

-- An id comes before a name: a reference that is a stored id finds a node, and one with that id,
-- whatever the names are.
pub find_node_sound :
    (p : Profile) (ref : String)
    → has_key (λ m. m.id) p.nodes ref ≡ true
    → (n : Node) × (find_node p ref ≡ some n) × (n.id ≡ ref)
unfolding find_node find_node_by_id
find_node_sound p ref k = elim (Option-cases (find_node_by_id p ref)) [
  | inr (m, e) ↦ (m, rw (find_node, e) refl, find-key (λ x. x.id) p.nodes ref m e)
  | inl e ↦ absurd (ground (arith, is_some-find (λ x. x.id == ref) p.nodes))
]
