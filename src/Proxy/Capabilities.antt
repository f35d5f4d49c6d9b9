-- ===== src/Proxy/Capabilities.antt =====
-- What each embedded core can dial (daemon-go/internal/proxy/capabilities.go). A core type is the text of the wire, so an unknown core is modelled.
use text.Mathlib.Text.{starts_with}
use iron_link.Prelude.{String, Bool, true, false, List, [], ◌∷◌, ◌==◌, if◌then◌else◌, contains}
use iron_link.Proxy.Stream.{
  SecurityKind, TransportKind, security_none, security_tls, security_reality, transport_tcp,
  transport_ws, transport_grpc, transport_xhttp,
}

abbrev pub CoreType : Type 0
CoreType = String

abbrev pub core_xray : CoreType
core_xray = "Xray"

abbrev pub core_sing_box : CoreType
core_sing_box = "SingBox"

pub record CoreCapabilities : Type 0 where
  pub can_tun : Bool
  pub transports : List TransportKind
  pub securities : List SecurityKind
  pub vision : Bool

abbrev pub is_vision_flow : String → Bool
is_vision_flow flow = starts_with flow "xtls-rprx-vision"

abbrev pub covers_flow : CoreCapabilities → String → Bool
covers_flow c flow = if is_vision_flow flow then c.vision else true

abbrev pub has_transport : CoreCapabilities → TransportKind → Bool
has_transport c t = contains c.transports t

abbrev pub has_security : CoreCapabilities → SecurityKind → Bool
has_security c s = contains c.securities s

abbrev sing_box_caps : CoreCapabilities
sing_box_caps = record {
  can_tun = true;
  transports = transport_tcp ∷ transport_ws ∷ transport_grpc ∷ [];
  securities = security_none ∷ security_tls ∷ security_reality ∷ [];
  vision = true;
}

abbrev xray_caps : CoreCapabilities
xray_caps = record {
  can_tun = false;
  transports = transport_tcp ∷ transport_ws ∷ transport_grpc ∷ transport_xhttp ∷ [];
  securities = security_none ∷ security_tls ∷ security_reality ∷ [];
  vision = true;
}

unfoldable pub core_caps : CoreType → CoreCapabilities
core_caps core =
    if core == core_sing_box
    then sing_box_caps
    else if core == core_xray
    then xray_caps
    else record { can_tun = false; transports = []; securities = []; vision = false }
