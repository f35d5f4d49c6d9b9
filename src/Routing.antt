-- ===== src/Routing.antt =====
-- The user routing model (daemon-go/internal/routing/routing.go). Rules hold rules, so the slice of
-- rules is a type of the same block; a condition is its key and its raw JSON text.
use iron_link.Prelude.{String, Bool, Option, none, List, [], ◌==◌, ◌||◌}

abbrev pub TargetKind : Type 0
TargetKind = String

abbrev pub target_direct : TargetKind
target_direct = "Direct"

abbrev pub target_block : TargetKind
target_block = "Block"

abbrev pub target_default_proxy : TargetKind
target_default_proxy = "DefaultProxy"

abbrev pub target_dpi_bypass : TargetKind
target_dpi_bypass = "DpiBypass"

abbrev pub target_node : TargetKind
target_node = "Node"

abbrev pub target_hijack_dns : TargetKind
target_hijack_dns = "HijackDns"

abbrev pub target_sniff : TargetKind
target_sniff = "Sniff"

abbrev pub target_resolve : TargetKind
target_resolve = "Resolve"

pub record SniffParams : Type 0 where
  pub sniffer : List String
  pub timeout : String

pub record ResolveParams : Type 0 where
  pub server : String
  pub strategy : String

pub record RuleTarget : Type 0 where
  pub kind : TargetKind
  pub node : String
  pub sniff : Option SniffParams
  pub resolve : Option ResolveParams

-- A target with no payload.
abbrev pub unit_target : TargetKind → RuleTarget
unit_target k = record { kind = k; node = ""; sniff = none; resolve = none }

unfoldable pub is_route : RuleTarget → Bool
is_route t =
    t.kind == target_direct
    || t.kind == target_block
    || t.kind == target_default_proxy
    || t.kind == target_dpi_bypass
    || t.kind == target_node

mutual
  pub data Rule : Type 0 where
    rule : RuleTarget → Rules → List (String × String) → Rule

  pub data Rules : Type 0 where
    nil : Rules
    cons : Rule → Rules → Rules

abbrev pub target_of : Rule → RuleTarget
target_of (rule t rs cs) = t

abbrev pub sub_rules : Rule → Rules
sub_rules (rule t rs cs) = rs

abbrev pub conditions : Rule → List (String × String)
conditions (rule t rs cs) = cs

pub record RuleSetSource : Type 0 where
  pub tag : String
  pub url : String
  pub format : String
  pub download_detour : Option String

pub record Config : Type 0 where
  pub id : String
  pub name : String
  pub rule_sets : List RuleSetSource
  pub rules : List Rule
  pub default_target : RuleTarget

-- `NewDefault`; `uuid.New` is the argument.
abbrev pub new_default : String → Config
new_default fresh = record {
  id = fresh;
  name = "default";
  rule_sets = [];
  rules = [];
  default_target = unit_target target_default_proxy;
}
