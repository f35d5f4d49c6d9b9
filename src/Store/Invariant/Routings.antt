-- ===== src/Store/Invariant/Routings.antt =====
-- The invariants of the routing configs under their mutators.
use iron_link.Prelude.{
  String, ◌≡◌, refl, Bool, true, false, not, ◌&&◌, Option, none, some, List, [], ◌∷◌, ◌++◌, arith,
  ◌==◌, eq_iff, any, has_key, has_key-append, has_key-delete_other, selects, delete_func,
  delete_func-id, length-delete_func-lt, Bool-cases, inl, inr, replace_first, ◌∙◌, DistinctBy,
  DistinctBy-append_one, DistinctBy-delete_func, All, All-append, All-delete_func, if◌then◌else◌,
  Result-cases,
}
use iron_link.Routing
use iron_link.Store.Name.{validate_name}
use iron_link.Store.Profile.{Profile}
use iron_link.Store.Mutators.{
  add_routing, replace_routing_by_id, remove_routing, set_active_routing, points_at,
}
use iron_link.Store.Invariant.Defs.{routing_id, routing_name, HasValidName}

-- The fields of the invariant that speak of the routing configs.
pub record AreValid (active : Option String) (rs : List Routing.Config) : Type 0 where
  pub active_routing : selects routing_id active rs ≡ true
  pub ids : DistinctBy routing_id rs
  pub names : DistinctBy routing_name rs
  pub valid_names : All HasValidName rs

module _ (rc : Routing.Config) (id : String) where
  abbrev stored : Routing.Config
  stored = record rc { id = id }

  append-AreValid :
      (active : Option String) (rs : List Routing.Config)
      → AreValid active rs
      → has_key routing_id rs id ≡ false
      → has_key routing_name rs rc.name ≡ false
      → HasValidName rc
      → AreValid active (rs ++ stored ∷ [])
  append-AreValid active rs v k n w = record {
    active_routing =
        elim active
            as (λ a.
              selects routing_id a rs ≡ true → selects routing_id a (rs ++ stored ∷ []) ≡ true) [
                | none ↦ λ h. refl
                | some a ↦ λ h. ground (arith, has_key-append routing_id rs (stored ∷ []) a)
              ]
          v.active_routing;
    ids = DistinctBy-append_one routing_id rs stored v.ids k;
    names = DistinctBy-append_one routing_name rs stored v.names n;
    valid_names = All-append HasValidName rs (stored ∷ []) v.valid_names (w, tt);
  }

  -- What `ReplaceRoutingByID` writes.
  abbrev pub write : List Routing.Config → List Routing.Config
  write = replace_first (λ r. r.id == id) (λ _. stored)

  pub has_key-write :
      (rs : List Routing.Config) (b : String)
      → has_key routing_id (write rs) b ≡ has_key routing_id rs b
  has_key-write [] b = refl
  has_key-write (r ∷ rs) b =
      ground (arith, has_key-write rs b, eq_iff r.id id, eq_iff id b, eq_iff r.id b)

  write-ids :
      (rs : List Routing.Config) → DistinctBy routing_id rs → DistinctBy routing_id (write rs)
  write-ids [] d = tt
  write-ids (r ∷ rs) (h, d) = ground (arith, has_key-write rs r.id, write-ids rs d, eq_iff r.id id)

  write-valid_names :
      (rs : List Routing.Config)
      → HasValidName rc
      → All HasValidName rs
      → All HasValidName (write rs)
  write-valid_names [] w h = tt
  write-valid_names (r ∷ rs) w (a, h) = ground (arith, write-valid_names rs w h)

  -- A name that neither the new config nor the others have is still free after the write.
  has_name-write :
      (rs : List Routing.Config) (b : String)
      → has_key routing_name rs b ≡ false
      → (rc.name == b) ≡ false
      → has_key routing_name (write rs) b ≡ false
  has_name-write [] b h k = refl
  has_name-write (r ∷ rs) b h k = ground (arith, has_name-write rs b)

  -- The guard of `ReplaceRoutingByID`: no other config has the name.
  abbrev name_taken : List Routing.Config → Bool
  name_taken rs = any (λ r. not (r.id == id) && r.name == rc.name) rs

  -- Past the written config nothing has its id, so the guard covers every name there.
  has_name-rest :
      (rs : List Routing.Config)
      → has_key routing_id rs id ≡ false
      → name_taken rs ≡ false
      → has_key routing_name rs rc.name ≡ false
  has_name-rest [] h k = refl
  has_name-rest (r ∷ rs) h k = ground (arith, has_name-rest rs)

  write-names :
      (rs : List Routing.Config)
      → DistinctBy routing_id rs
      → DistinctBy routing_name rs
      → name_taken rs ≡ false
      → DistinctBy routing_name (write rs)
  write-names [] d n k = tt
  write-names (r ∷ rs) (h, d) (g, n) k = ground (
    arith,
    write-names rs d n,
    has_name-rest rs,
    has_name-write rs r.name,
    eq_iff r.id id,
    eq_iff rc.name r.name,
    eq_iff r.name rc.name,
  )

abbrev RoutingsOf : Profile → Type 0
RoutingsOf p = AreValid p.active_routing_id p.routing_configs

pub add_routing-AreValid :
    (p : Profile) (rc : Routing.Config) (fresh : String)
    → has_key routing_id p.routing_configs (if rc.id == "" then fresh else rc.id) ≡ false
    → RoutingsOf p
    → RoutingsOf (add_routing p rc fresh).0
unfolding add_routing
add_routing-AreValid p rc fresh k v = elim (Result-cases (validate_name rc.name)) [
  | inr (e, bad) ↦ rw (bad, add_routing) v
  | inl (_, valid) ↦ elim (Bool-cases (has_key routing_name p.routing_configs rc.name)) [
    | inl taken ↦ rw (valid, add_routing, taken) v
    | inr free ↦
        rw (valid, add_routing, free)
          (append-AreValid rc (if rc.id == "" then fresh else rc.id) p.active_routing_id
            p.routing_configs v k free (rw valid refl))
  ]
]

selects-write :
    (rc : Routing.Config) (id : String) (active : Option String) (rs : List Routing.Config)
    → selects routing_id active rs ≡ true
    → selects routing_id active (write rc id rs) ≡ true
selects-write rc id none rs h = refl
selects-write rc id (some a) rs h = has_key-write rc id rs a ∙ h

pub replace_routing_by_id-AreValid :
    (p : Profile) (id : String) (rc : Routing.Config)
    → RoutingsOf p
    → RoutingsOf (replace_routing_by_id p id rc).0
unfolding replace_routing_by_id
replace_routing_by_id-AreValid p id rc v = elim (Result-cases (validate_name rc.name)) [
  | inr (e, bad) ↦ rw (bad, replace_routing_by_id) v
  | inl (_, valid) ↦ elim (Bool-cases (name_taken rc id p.routing_configs)) [
    | inl taken ↦ rw (valid, replace_routing_by_id, taken) v
    | inr free ↦ elim (Bool-cases (has_key routing_id p.routing_configs id)) [
      | inr absent ↦ rw (valid, replace_routing_by_id, free, absent) v
      | inl present ↦
          rw (valid, replace_routing_by_id, free, present)
            (record {
              active_routing =
                  selects-write rc id p.active_routing_id p.routing_configs v.active_routing;
              ids = write-ids rc id p.routing_configs v.ids;
              names = write-names rc id p.routing_configs v.ids v.names free;
              valid_names = write-valid_names rc id p.routing_configs (rw valid refl) v.valid_names;
            })
    ]
  ]
]

selects-delete :
    (a : Option String) (id : String) (rs : List Routing.Config)
    → selects routing_id a rs ≡ true
    → points_at a id ≡ false
    → selects routing_id a (delete_func (λ r. r.id == id) rs) ≡ true
selects-delete none id rs h k = refl
selects-delete (some a) id rs h k =
    has_key-delete_other routing_id rs id a (ground (arith, eq_iff a id, eq_iff id a)) ∙ h

pub remove_routing-AreValid :
    (p : Profile) (id : String) → RoutingsOf p → RoutingsOf (remove_routing p id).0
unfolding remove_routing
remove_routing-AreValid p id v = record {
  active_routing = elim (Bool-cases (has_key routing_id p.routing_configs id)) [
    | inr absent ↦
        rw (delete_func-id (λ r. r.id == id) p.routing_configs absent)
          (ground (arith, v.active_routing))
    | inl present ↦ elim (Bool-cases (points_at p.active_routing_id id)) [
      | inl k ↦ ground (arith, length-delete_func-lt (λ r. r.id == id) p.routing_configs present)
      | inr k ↦ rw k (ground (arith, selects-delete p.active_routing_id id p.routing_configs))
    ]
  ];
  ids = DistinctBy-delete_func routing_id (λ r. r.id == id) p.routing_configs v.ids;
  names = DistinctBy-delete_func routing_name (λ r. r.id == id) p.routing_configs v.names;
  valid_names = All-delete_func HasValidName (λ r. r.id == id) p.routing_configs v.valid_names;
}

pub set_active_routing-AreValid :
    (p : Profile) (id : String) → RoutingsOf p → RoutingsOf (set_active_routing p id).0
unfolding set_active_routing
set_active_routing-AreValid p id v = elim (Bool-cases (has_key routing_id p.routing_configs id)) [
  | inr absent ↦ rw absent v
  | inl present ↦ rw present (record {
    active_routing = present;
    ids = v.ids;
    names = v.names;
    valid_names = v.valid_names;
  })
]
