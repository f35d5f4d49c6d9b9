-- ===== src/Proxy/Selection.antt =====
-- Which core dials a node (daemon-go/internal/proxy/selection.go). A nil profile or core is `none`.
pub mod Rules
pub mod Emission
use iron_link.Prelude.{
  String, Bool, true, false, not, ◌&&◌, Option, none, some, List, [], ◌∷◌, ◌==◌, if◌then◌else◌,
  contains, delete_func, Result, ok, err,
}
use iron_link.Proxy.Stream.{security_reality}
use iron_link.Proxy.Profile.{Profile, display_name, stream_security, dialable_by}
use iron_link.Proxy.Capabilities.{CoreType, core_xray, core_sing_box}

pub data SelectError : Type 0 where
  group_node no_core : SelectError
  cannot_dial : CoreType → SelectError
  at_node : SelectError → String → SelectError

abbrev pub core_priority : List CoreType
core_priority = core_sing_box ∷ core_xray ∷ []

-- The loop keeps the cores that can dial the node, in priority order.
unfoldable pub eligible_cores : Option Profile → List CoreType
eligible_cores none = []
eligible_cores (some p) = delete_func (λ c. not (dialable_by p c)) core_priority

unfoldable pub preferred_core : Profile → Option CoreType
preferred_core p = elim (stream_security p) [
  | none ↦ none
  | some s ↦ if s.kind == security_reality then some core_xray else none
]

-- Rules 4, 5 and 6, over an eligible set that holds `first`.
choose_default : CoreType → List CoreType → CoreType → Option CoreType → CoreType
choose_default first eligible tun_engine none =
    if contains eligible tun_engine then tun_engine else first
choose_default first eligible tun_engine (some preferred) =
    if contains eligible preferred
    then preferred
    else if contains eligible tun_engine
    then tun_engine
    else first

-- `selectFromEligible`
unfoldable pub select_from_eligible :
    List CoreType → CoreType → Option CoreType → Option CoreType → Result SelectError CoreType
unfolding choose_default
select_from_eligible [] tun_engine preferred override = err no_core
select_from_eligible (c ∷ cs) tun_engine preferred (some core) =
    if contains (c ∷ cs) core then ok core else err (cannot_dial core)
select_from_eligible (c ∷ []) tun_engine preferred none = ok c
select_from_eligible (c ∷ d ∷ cs) tun_engine preferred none =
    ok (choose_default c (c ∷ d ∷ cs) tun_engine preferred)

unfoldable pub select_core :
    Option Profile → CoreType → Option CoreType → Result SelectError CoreType
select_core none tun_engine override = err group_node
select_core (some p) tun_engine override =
    elim (select_from_eligible (eligible_cores (some p)) tun_engine (preferred_core p) override) [
      | ok core ↦ ok core
      | err e ↦ err (at_node e (display_name p))
    ]
