-- ===== src/Store/Reread.antt =====
-- What a profile becomes when it is written and read back: the JSON methods of
-- daemon-go/internal/routing/routing.go and of the nodes of daemon-go/internal/store/profile.go, as
-- far as the store relies on them.
use iron_link.Prelude.{
  String, false, ◌==◌, ◌≡◌, refl, ◌∙◌, Option, none, some, List, [], ◌∷◌, map, arith, has_key,
  DistinctBy, selects, All,
}
use iron_link.Routing
use iron_link.Store.Profile.{Profile, Node}
use iron_link.Store.Invariant.{IsValid}
use iron_link.Store.Invariant.Defs.{node_id, routing_id, routing_name, HasValidName}

-- What a node and a routing config are read back as. A config without an id is given one; a rule's
-- target loses what its kind has no use for, and a raw value its spaces.
pub record Rereading : Type 0 where
  pub node : Node → Node
  pub config : Routing.Config → Routing.Config
  pub node_id : (n : Node) → (node n).id ≡ n.id
  pub config_name : (r : Routing.Config) → (config r).name ≡ r.name
  pub config_id : (r : Routing.Config) → (r.id == "") ≡ false → (config r).id ≡ r.id
  pub config_minted : (r : Routing.Config) → ((config r).id == "") ≡ false

unfoldable pub reread : Rereading → Profile → Profile
reread re p = record p {
  nodes = map re.node p.nodes;
  routing_configs = map re.config p.routing_configs;
}

-- Every routing config has an id.
abbrev pub HasIds : Profile → Type 0
HasIds p = has_key routing_id p.routing_configs "" ≡ false

has_key-map {ℓ} :
    {A : Type ℓ} (key : A → String) (f : A → A) (xs : List A) (a : String)
    → ((x : A) → key (f x) ≡ key x)
    → has_key key (map f xs) a ≡ has_key key xs a
has_key-map key f [] a h = refl
has_key-map key f (x ∷ xs) a h = rw (h x, has_key-map key f xs a h) refl

DistinctBy-map {ℓ} :
    {A : Type ℓ} (key : A → String) (f : A → A) (xs : List A)
    → ((x : A) → key (f x) ≡ key x)
    → DistinctBy key xs
    → DistinctBy key (map f xs)
DistinctBy-map key f [] h d = tt
DistinctBy-map key f (x ∷ xs) h (e, d) =
    (rw (h x, has_key-map key f xs (key x) h) e, DistinctBy-map key f xs h d)

module _ (re : Rereading) where
  valid_names-map :
      (rs : List Routing.Config) → All HasValidName rs → All HasValidName (map re.config rs)
  valid_names-map [] h = tt
  valid_names-map (r ∷ rs) (v, h) = (rw (re.config_name r) v, valid_names-map rs h)

  -- Where every config has an id, it keeps it.
  has_id-map :
      (rs : List Routing.Config) (a : String)
      → has_key routing_id rs "" ≡ false
      → has_key routing_id (map re.config rs) a ≡ has_key routing_id rs a
  has_id-map [] a h = refl
  has_id-map (r ∷ rs) a h = rw (re.config_id r (ground arith), has_id-map rs a (ground arith)) refl

  ids-map :
      (rs : List Routing.Config)
      → has_key routing_id rs "" ≡ false
      → DistinctBy routing_id rs
      → DistinctBy routing_id (map re.config rs)
  ids-map [] h d = tt
  ids-map (r ∷ rs) h (e, d) = (
    rw (re.config_id r (ground arith), has_id-map rs r.id (ground arith)) e,
    ids-map rs (ground arith) d,
  )

  minted-map : (rs : List Routing.Config) → has_key routing_id (map re.config rs) "" ≡ false
  minted-map [] = refl
  minted-map (r ∷ rs) = ground (arith, re.config_minted r, minted-map rs)

  selects-node :
      (a : Option String) (ns : List Node)
      → selects node_id a (map re.node ns) ≡ selects node_id a ns
  selects-node none ns = refl
  selects-node (some a) ns = has_key-map node_id re.node ns a re.node_id

  selects-routing :
      (a : Option String) (rs : List Routing.Config)
      → has_key routing_id rs "" ≡ false
      → selects routing_id a (map re.config rs) ≡ selects routing_id a rs
  selects-routing none rs h = refl
  selects-routing (some a) rs h = has_id-map rs a h

  pub reread-HasIds : (p : Profile) → HasIds (reread re p)
  unfolding reread
  reread-HasIds p = minted-map p.routing_configs

  -- A valid profile with all its ids is valid when it is read back.
  pub reread-IsValid : (p : Profile) → HasIds p → IsValid p → IsValid (reread re p)
  unfolding reread
  reread-IsValid p h v = record {
    active_node = selects-node p.active_node_id p.nodes ∙ v.active_node;
    active_routing = selects-routing p.active_routing_id p.routing_configs h ∙ v.active_routing;
    urls = v.urls;
    ids = ids-map p.routing_configs h v.ids;
    names = DistinctBy-map routing_name re.config p.routing_configs re.config_name v.names;
    valid_names = valid_names-map p.routing_configs v.valid_names;
  }
