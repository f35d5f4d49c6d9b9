-- ===== src/Subscription/Keys.antt =====
-- What makes two nodes the same across refreshes (`prefsKey` of
-- daemon-go/internal/subscription/subscription.go). A stored node has a profile or a group; the code
-- would dereference a nil profile on a node with neither, and such a node has an empty key here.
use iron_link.Prelude.{
  ℕ, String, Bool, ◌&&◌, ◌==◌, Option, none, some, eqb, List, [], ◌∷◌, if◌then◌else◌,
}
use iron_link.Proxy.Profile as Proxy
use iron_link.Store.Profile.{Node}

pub record PrefsKey : Type 0 where
  pub kind : String
  pub identity : String
  pub address : String
  pub port : ℕ
  pub transport : String
  pub security : String

unfoldable pub profile_key : Proxy.Profile → PrefsKey
profile_key p = record {
  kind = Proxy.kind p;
  identity = Proxy.identity p;
  address = Proxy.server_address p;
  port = Proxy.server_port p;
  transport = Proxy.transport_label p;
  security = Proxy.security_label p;
}

-- A key with nothing but a kind and an identity.
abbrev named_key : String → String → PrefsKey
named_key kind identity = record {
  kind = kind;
  identity = identity;
  address = "";
  port = 0;
  transport = "";
  security = "";
}

unfoldable pub node_key : Node → PrefsKey
node_key n = elim n.group [
  | some g ↦ named_key "group" g.name
  | none ↦ (elim n.doc [ some p ↦ profile_key p | none ↦ named_key "" "" ])
]

-- The equality of keys.
abbrev pub same_key : PrefsKey → PrefsKey → Bool
same_key a b =
    a.kind == b.kind
    && a.identity == b.identity
    && a.address == b.address
    && eqb a.port b.port
    && a.transport == b.transport
    && a.security == b.security

-- A map that is filled from a list of values under their keys, in order: the last one counts.
module _ {A : Type 0} (key : A → PrefsKey) where
  abbrev pub last_with : List A → PrefsKey → Option A
  last_with [] k = none
  last_with (x ∷ xs) k =
      let rest = last_with xs k in
      elim rest [ some y ↦ some y | none ↦ if same_key (key x) k then some x else none ]
