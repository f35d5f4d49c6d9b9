-- ===== src/Engine/Configs.antt =====
-- The configs of a session (daemon-go/internal/engine/plan.go). The bytes of
-- a config stand as the map that is marshalled. The list of bypassed ranges is never nil: the settings and the
-- defaults both give one.
pub mod Compiles
use iron_link.Prelude.{
  ℕ, suc, zero, ◌+◌, String, Bool, true, false, not, ◌==◌, ltb, Option, none, some, List, [], ◌∷◌,
  ◌++◌, map, contains, is_empty, insert, if◌then◌else◌, Result, ok, err, ◌>>=◌, ◌>>◌,
}
use iron_link.Json.{ℤ, Json, JsonMap, str, bool, num, nat, strings, object, array}
use iron_link.Proxy.Stream.{UnnativeTransportError}
use iron_link.Proxy.Profile.{sing_box_outbound, server_address}
use iron_link.Engine.Tunables.{
  Tunables, DnsUpstream, dns_tag, dns_strategy, tun_addresses, effective_tunables,
}
use iron_link.Engine.Plan.{
  NamedNode, GroupPlan, SessionPlan, PlanError, member_tags, selector_tag, validate,
}
use iron_link.Engine.Route.{RouteError, route_block}
use iron_link.Engine.Host.{Host, encode}
use iron_link.Engine.XrayClient.{XrayError, xray_config}

pub data ConfigError : Type 0 where
  invalid_plan : PlanError → ConfigError
  native_outbound : String → UnnativeTransportError → ConfigError
  bad_route : RouteError → ConfigError
  bad_xray : XrayError → ConfigError
  unencodable : String → ConfigError
  -- the program panics: a method call on a nil profile, or `t.DNS[0]` of an empty list
  panics : ConfigError

-- An error under the stage that it comes from.
abbrev pub at_stage {ℓ κ} :
    {E : Type ℓ} {A : Type κ} → (E → ConfigError) → Result E A → Result ConfigError A
at_stage wrap (ok a) = ok a
at_stage wrap (err e) = err (wrap e)

unfoldable pub selector_outbound : SessionPlan → JsonMap
selector_outbound p =
    ("type", str "selector")
    ∷ ("tag", str selector_tag)
    ∷ ("outbounds", strings (member_tags p))
    ∷ ("default", str p.active_tag)
    ∷ ("interrupt_exist_connections", bool true)
    ∷ []

unfoldable pub native_outbounds : List NamedNode → Result ConfigError (List JsonMap)
native_outbounds [] = ok []
native_outbounds (n ∷ ns) = elim n.profile [
  | none ↦ err panics
  | some p ↦ at_stage (native_outbound n.name) (sing_box_outbound p n.id) >>= λ ob.
      native_outbounds ns >>= λ rest. ok (ob ∷ rest)
]

abbrev pub outbound_type : String
outbound_type = "xray-reality"

unfoldable pub bridge_outbound : NamedNode → JsonMap
bridge_outbound n = ("type", str outbound_type) ∷ ("tag", str n.id) ∷ ("node_id", str n.id) ∷ []

-- The default idle timeout of a urltest, in nanoseconds.
abbrev pub idle_timeout : ℕ
idle_timeout = 1800000000000

unfoldable pub urltest_outbound : Host → GroupPlan → JsonMap
urltest_outbound host g =
    let base : JsonMap =
      ("type", str "urltest")
      ∷ ("tag", str g.id)
      ∷ ("outbounds", strings g.members)
      ∷ ("interrupt_exist_connections", bool true)
      ∷ [] in
    let with_url = if g.probe_url == "" then base else insert "url" (str g.probe_url) base in
    let shown = str (host.show_duration g.interval) in
    let with_interval =
      if ltb 0 g.interval
      then (if ltb idle_timeout g.interval
          then insert "idle_timeout" shown (insert "interval" shown with_url)
          else insert "interval" shown with_url)
      else with_url in
    if ltb 0 g.tolerance then insert "tolerance" (nat g.tolerance) with_interval else with_interval

-- The selector, the native members, the bridged members, the groups, and the two sinks.
unfoldable pub plan_outbounds : Host → SessionPlan → Result ConfigError (List JsonMap)
unfolding selector_outbound native_outbounds bridge_outbound urltest_outbound
plan_outbounds host p = native_outbounds p.natives >>= λ natives. ok (
    selector_outbound p ∷ natives
    ++ map bridge_outbound p.xray_nodes
    ++ map (urltest_outbound host) p.groups
    ++ (("type", str "direct") ∷ ("tag", str "direct") ∷ [])
      ∷ (("type", str "block") ∷ ("tag", str "block") ∷ [])
      ∷ [])

unfoldable pub dns_servers : Host → Bool → ℕ → List DnsUpstream → List Json
unfolding dns_tag
dns_servers host via_tunnel i [] = []
dns_servers host via_tunnel i (u ∷ us) =
    let entry : JsonMap =
      ("tag", str (dns_tag host.show i)) ∷ ("type", str u.kind) ∷ ("server", str u.address) ∷ [] in
    object (if via_tunnel then insert "detour" (str selector_tag) entry else entry)
    ∷ dns_servers host via_tunnel (i + 1) us

abbrev dns_block : Tunables → List Json → JsonMap
dns_block t servers =
    ("strategy", str (dns_strategy t.dns_strategy t.ip_version)) ∷ ("servers", array servers) ∷ []

-- The resolver block and the tag of the default resolver.
unfoldable pub plan_dns : Host → Tunables → Result ConfigError (JsonMap × String)
unfolding dns_servers dns_tag
plan_dns host t =
    let servers = dns_servers host t.dns_via_tunnel 0 t.dns in
    if t.dns_via_tunnel
    then (elim t.dns [
      | [] ↦ err panics
      | first ∷ _ ↦
          let bootstrap : JsonMap =
            ("tag", str "dns-bootstrap")
            ∷ ("type", str first.kind)
            ∷ ("server", str first.address)
            ∷ [] in
          ok (dns_block t (servers ++ object bootstrap ∷ []), "dns-bootstrap")
    ])
    else ok (dns_block t servers, dns_tag host.show 0)

unfoldable pub apply_cache : SessionPlan → JsonMap → JsonMap
apply_cache p cfg =
    let cache = object (("enabled", bool true) ∷ ("path", str p.cache_path) ∷ []) in
    if p.cache_path == ""
    then cfg
    else insert "experimental" (object (("cache_file", cache) ∷ [])) cfg

-- A value that is not in the list yet goes to its end.
abbrev add_once : List String → String → List String
add_once xs a = if contains xs a then xs else xs ++ a ∷ []

abbrev add_all : List String → List String → List String
add_all xs [] = xs
add_all xs (a ∷ more) = add_all (add_once xs a) more

-- The server addresses of the members, each once; a Go map iterates over them in any order.
unfoldable pub server_hosts : List String → List NamedNode → List String
server_hosts seen [] = seen
server_hosts seen (n ∷ ns) = elim n.profile [
  | none ↦ server_hosts seen ns
  | some p ↦
      if server_address p == ""
      then server_hosts seen ns
      else server_hosts (add_once seen (server_address p)) ns
]

abbrev cidrs_of_all : Host → List String → List String
cidrs_of_all host [] = []
cidrs_of_all host (h ∷ hs) = host.cidrs_of h ++ cidrs_of_all host hs

unfoldable pub server_excludes : Host → SessionPlan → List String
unfolding server_hosts
server_excludes host p =
    add_all [] (cidrs_of_all host (server_hosts (server_hosts [] p.natives) p.xray_nodes))

abbrev linux : String
linux = "linux"

unfoldable pub tun_inbound : Host → SessionPlan → Tunables → String → JsonMap
unfolding server_excludes
tun_inbound host p t tun_name =
    let base : JsonMap =
      ("type", str "tun")
      ∷ ("tag", str "tun-in")
      ∷ ("address", strings (tun_addresses t.ip_version))
      ∷ ("mtu", num t.tun_mtu)
      ∷ ("auto_route", bool true)
      ∷ ("strict_route", bool t.strict_route)
      ∷ ("stack", str t.tun_stack)
      ∷ [] in
    let redirected = if host.goos == linux then insert "auto_redirect" (bool true) base else base in
    let excludes =
      if host.goos == linux then t.lan_bypass else t.lan_bypass ++ server_excludes host p in
    let excluded =
      if is_empty excludes
      then redirected
      else insert "route_exclude_address" (strings excludes) redirected in
    if tun_name == "" then excluded else insert "interface_name" (str tun_name) excluded

unfoldable pub session_document : SessionPlan → JsonMap → List JsonMap → JsonMap → JsonMap → JsonMap
unfolding apply_cache
session_document p inbound outbounds dns route = apply_cache p (
    ("log", object (("level", str (effective_tunables p.tunables).log_level) ∷ []))
    ∷ ("dns", object dns)
    ∷ ("inbounds", array (object inbound ∷ []))
    ∷ ("outbounds", array (map (λ m. object m) outbounds))
    ∷ ("route", object route)
    ∷ [])

-- What the two modes share: the checks, the outbounds, the resolver, the route, the encoding and the
-- xray side.
unfoldable pub session_configs :
    Host → SessionPlan → Bool → JsonMap → String → Result ConfigError (JsonMap × Json)
unfolding plan_outbounds plan_dns session_document encode
session_configs host p tun inbound stub = do
  at_stage invalid_plan (validate p)
  outbounds ← plan_outbounds host p
  (dns, resolver) ← plan_dns host (effective_tunables p.tunables)
  route ← at_stage bad_route (route_block host.trim host.text_of p tun resolver)
  config ← at_stage unencodable (encode host (session_document p inbound outbounds dns route))
  xray ← at_stage bad_xray (xray_config host p.xray_nodes stub)
  ok (config, xray)

unfoldable pub plan_tun_configs : Host → SessionPlan → String → Result ConfigError (JsonMap × Json)
unfolding session_configs tun_inbound
plan_tun_configs host p tun_name =
    session_configs host p true (tun_inbound host p (effective_tunables p.tunables) tun_name)
      "@il-xray-plan-tun"

unfoldable pub socks_inbound : String → ℤ → JsonMap
socks_inbound listen port =
    ("type", str "socks")
    ∷ ("tag", str "socks-in")
    ∷ ("listen", str listen)
    ∷ ("listen_port", num port)
    ∷ []

unfoldable pub plan_socks_configs :
    Host → SessionPlan → String → ℤ → Result ConfigError (JsonMap × Json)
unfolding session_configs socks_inbound
plan_socks_configs host p listen port =
    session_configs host p false (socks_inbound listen port) "@il-xray-plan-socks"
