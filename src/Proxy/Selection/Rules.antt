-- ===== src/Proxy/Selection/Rules.antt =====
-- The rules of core selection, over every profile, engine and override.
use iron_link.Prelude.{
  ◌∙◌, Bool-cases, ◌||◌, inl, inr, ◌≡◌, refl, ◌⊎◌, true, Option, none, some, List, [], ◌∷◌, arith,
  eq_iff, eq_refl, ◌==◌, contains, ok, is_ok, ◌↔◌, ◌&&◌,
}
use iron_link.Proxy.Stream.{Security, security_reality}
use iron_link.Proxy.Profile.{Profile, stream_security, dialable_by}
use iron_link.Proxy.Capabilities.{CoreType, core_xray, core_sing_box}
use iron_link.Proxy.Selection.{
  eligible_cores, preferred_core, choose_default, select_from_eligible, select_core,
}

-- A core is eligible exactly when it is one of the two and can dial the node.
pub contains-eligible_cores :
    (p : Profile) (core : CoreType)
    → contains (eligible_cores (some p)) core
      ≡ ((core_sing_box == core || core_xray == core) && dialable_by p core)
unfolding eligible_cores
contains-eligible_cores p core = ground (arith, eq_iff core_sing_box core, eq_iff core_xray core)

choose_default-eligible :
    (first : CoreType) (eligible : List CoreType) (tun_engine : CoreType)
    (preferred : Option CoreType)
    → contains eligible first ≡ true
    → contains eligible (choose_default first eligible tun_engine preferred) ≡ true
unfolding choose_default
choose_default-eligible first eligible tun_engine none h = ground arith
choose_default-eligible first eligible tun_engine (some c) h = ground arith

select_from_eligible-contains :
    (eligible : List CoreType) (tun_engine : CoreType) (preferred override : Option CoreType)
    (core : CoreType)
    → select_from_eligible eligible tun_engine preferred override ≡ ok core
    → contains eligible core ≡ true
unfolding select_from_eligible
select_from_eligible-contains [] tun_engine preferred override core h = cc
select_from_eligible-contains (c ∷ []) tun_engine preferred none core h =
    ground (arith, eq_refl c, eq_iff c core)
select_from_eligible-contains (c ∷ d ∷ cs) tun_engine preferred none core h =
    ground (arith, choose_default-eligible c (c ∷ d ∷ cs) tun_engine preferred, eq_refl c)
select_from_eligible-contains (c ∷ cs) tun_engine preferred (some o) core h = ground arith

contains-eligible_cores_of :
    (p : Profile) (core : CoreType)
    → (core ≡ core_sing_box) ⊎ (core ≡ core_xray)
    → dialable_by p core ≡ true
    → contains (eligible_cores (some p)) core ≡ true
contains-eligible_cores_of p core h d =
    ground (arith, contains-eligible_cores p core, eq_iff core_sing_box core, eq_iff core_xray core)

-- What `select_core` keeps of the rule's answer: every core, and an error under the node's name.
select_core-ok :
    (p : Profile) (tun_engine : CoreType) (override : Option CoreType) (core : CoreType)
    → (select_core (some p) tun_engine override ≡ ok core) ↔ (
        select_from_eligible (eligible_cores (some p)) tun_engine (preferred_core p) override
        ≡ ok core)
unfolding select_core
select_core-ok p tun_engine override core = ((λ h. ground arith), (λ h. ground arith))

-- A core that selection returns, for any engine and any override, is one of the two embedded cores
-- and can dial the node.
pub select_core_sound :
    (p : Profile) (tun_engine : CoreType) (override : Option CoreType) (core : CoreType)
    → select_core (some p) tun_engine override ≡ ok core
    → ((core ≡ core_sing_box) ⊎ (core ≡ core_xray)) × (dialable_by p core ≡ true)
select_core_sound p tun_engine override core h =
    let chosen = (select_core-ok p tun_engine override core).0 h in
    ground (
      arith,
      select_from_eligible-contains (eligible_cores (some p)) tun_engine (preferred_core p) override
          core chosen,
      contains-eligible_cores p core,
      eq_iff core_sing_box core,
      eq_iff core_xray core,
    )

select_from_eligible-override :
    (eligible : List CoreType) (tun_engine : CoreType) (preferred : Option CoreType)
    (core : CoreType)
    → contains eligible core ≡ true
    → select_from_eligible eligible tun_engine preferred (some core) ≡ ok core
unfolding select_from_eligible
select_from_eligible-override [] tun_engine preferred core h = cc
select_from_eligible-override (c ∷ cs) tun_engine preferred core h = ground arith

select_from_eligible-total :
    (eligible : List CoreType) (tun_engine : CoreType) (preferred : Option CoreType)
    (known : CoreType)
    → contains eligible known ≡ true
    → is_ok (select_from_eligible eligible tun_engine preferred none) ≡ true
unfolding select_from_eligible
select_from_eligible-total [] tun_engine preferred known h = cc
select_from_eligible-total (c ∷ []) tun_engine preferred known h = refl
select_from_eligible-total (c ∷ d ∷ cs) tun_engine preferred known h = refl

select_core-is_ok :
    (p : Profile) (tun_engine : CoreType) (override : Option CoreType)
    → is_ok (select_core (some p) tun_engine override)
      ≡ is_ok
          (select_from_eligible (eligible_cores (some p)) tun_engine (preferred_core p) override)
unfolding select_core
select_core-is_ok p tun_engine override = ground arith

select_core-is_ok_of :
    (p : Profile) (tun_engine core : CoreType)
    → (core ≡ core_sing_box) ⊎ (core ≡ core_xray)
    → dialable_by p core ≡ true
    → is_ok (select_core (some p) tun_engine none) ≡ true
select_core-is_ok_of p tun_engine core h d =
    select_core-is_ok p tun_engine none
    ∙ select_from_eligible-total (eligible_cores (some p)) tun_engine (preferred_core p) core
        (contains-eligible_cores_of p core h d)

-- Without an override, selection succeeds exactly when sing-box or xray can dial the node, whatever
-- engine is asked for.
pub select_core_complete :
    (p : Profile) (tun_engine : CoreType)
    → is_ok (select_core (some p) tun_engine none)
      ≡ (dialable_by p core_sing_box || dialable_by p core_xray)
unfolding eligible_cores
select_core_complete p tun_engine = elim (Bool-cases (dialable_by p core_sing_box)) [
  | inl a ↦ rw a (select_core-is_ok_of p tun_engine core_sing_box (inl refl) a)
  | inr a ↦ elim (Bool-cases (dialable_by p core_xray)) [
    | inl b ↦ rw (a, b) (select_core-is_ok_of p tun_engine core_xray (inr refl) b)
    | inr b ↦ rw (a, b) (unfold select_core select_from_eligible in ground arith)
  ]
]

-- Without an override, a REALITY node that xray can dial goes to xray, whatever the engine.
pub select_core-reality :
    (p : Profile) (tun_engine : CoreType) (s : Security)
    → stream_security p ≡ some s
    → s.kind ≡ security_reality
    → dialable_by p core_xray ≡ true
    → select_core (some p) tun_engine none ≡ ok core_xray
unfolding select_core select_from_eligible eligible_cores preferred_core
select_core-reality p tun_engine s e k d = ground (arith, eq_iff s.kind security_reality)
