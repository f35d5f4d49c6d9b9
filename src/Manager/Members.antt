-- ===== src/Manager/Members.antt =====
-- The members of a group, as `resolveGroupMemberIDs` of manager_store.go resolves them.
use iron_link.Prelude.{String, Bool, false, not, ◌&&◌, none, some, List, [], map, delete_func}
use iron_link.Store.Profile.{Profile, Node, is_group, find_node_by_id}
use iron_link.Store.Mutators.{of_sub}

-- An explicit member that is gone, or is a group, is dropped.
resolves : Profile → String → Bool
resolves p id = elim (find_node_by_id p id) [ none ↦ false | some n ↦ not (is_group n) ]

-- A node that is no group has no members; the program calls this on groups only.
unfoldable pub resolve_group_member_ids : Profile → Node → List String
unfolding resolves find_node_by_id
resolve_group_member_ids p g = elim g.group [
  | none ↦ []
  | some spec ↦ (elim spec.all_of_sub [
    | some sub ↦ map (λ n. n.id) (delete_func (λ n. not (not (is_group n) && of_sub sub n)) p.nodes)
    | none ↦ delete_func (λ id. not (resolves p id)) spec.members
  ])
]
