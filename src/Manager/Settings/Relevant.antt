-- ===== src/Manager/Settings/Relevant.antt =====
-- What of the settings reaches the engine, and what is flagged.
use iron_link.Prelude.{
  String, Bool, true, false, ◌==◌, ◌≡◌, refl, ap, eq_iff, and-eq-true, List, [], ◌∷◌, map, arith,
}
use iron_link.Json.{ℤ, pos, negsuc}
use iron_link.Api.Settings.{Settings, DnsServer}
use iron_link.Manager.Settings.{
  upstream, tunables_from_settings, neutral, deep_equal, same_engine, same_live,
  engine_relevant_changed, same_bool, same_int, same_texts, same_servers,
}

same_bool_sound : (a b : Bool) → same_bool a b ≡ true → a ≡ b
same_bool_sound true b h = cc
same_bool_sound false b h = ground arith

same_int_sound : (a b : ℤ) → same_int a b ≡ true → a ≡ b
same_int_sound (pos a) (pos b) h = ap pos (ground arith)
same_int_sound (negsuc a) (negsuc b) h = ap negsuc (ground arith)
same_int_sound (pos a) (negsuc b) h = cc
same_int_sound (negsuc a) (pos b) h = cc

same_texts_sound : (xs ys : List String) → same_texts xs ys ≡ true → xs ≡ ys
same_texts_sound [] [] h = refl
same_texts_sound [] (y ∷ ys) h = cc
same_texts_sound (x ∷ xs) [] h = cc
same_texts_sound (x ∷ xs) (y ∷ ys) h = ground (arith, eq_iff x y, same_texts_sound xs ys)

same_servers_sound :
    (xs ys : List DnsServer) → same_servers xs ys ≡ true → map upstream xs ≡ map upstream ys
unfolding upstream
same_servers_sound [] [] h = refl
same_servers_sound [] (y ∷ ys) h = cc
same_servers_sound (x ∷ xs) [] h = cc
same_servers_sound (x ∷ xs) (y ∷ ys) h =
    ground (arith, eq_iff x.kind y.kind, eq_iff x.address y.address, same_servers_sound xs ys)

same_engine-port :
    (a b : Settings) → same_engine a b ≡ true → same_int a.socks_port b.socks_port ≡ true
unfolding same_engine
same_engine-port a b h = ground arith

same_engine-tunables :
    (a b : Settings) → same_engine a b ≡ true → tunables_from_settings a ≡ tunables_from_settings b
unfolding same_engine tunables_from_settings
same_engine-tunables a b h =
    let log_level : (a.log_level == b.log_level) ≡ true = ground arith in
    let ip_version : (a.ip_version == b.ip_version) ≡ true = ground arith in
    let servers : same_servers a.dns.servers b.dns.servers ≡ true = ground arith in
    let strategy : (a.dns.strategy == b.dns.strategy) ≡ true = ground arith in
    let via_tunnel : same_bool a.dns.via_tunnel b.dns.via_tunnel ≡ true = ground arith in
    let bypass : same_bool a.lan_bypass.enabled b.lan_bypass.enabled ≡ true = ground arith in
    let cidrs : same_texts a.lan_bypass.cidrs b.lan_bypass.cidrs ≡ true = ground arith in
    let mtu : same_int a.tun.mtu b.tun.mtu ≡ true = ground arith in
    let stack : (a.tun.stack == b.tun.stack) ≡ true = ground arith in
    let strict : same_bool a.tun.strict_route b.tun.strict_route ≡ true = ground arith in
    cc (
      (eq_iff a.log_level b.log_level).0 log_level,
      (eq_iff a.ip_version b.ip_version).0 ip_version,
      same_servers_sound a.dns.servers b.dns.servers servers,
      (eq_iff a.dns.strategy b.dns.strategy).0 strategy,
      same_bool_sound a.dns.via_tunnel b.dns.via_tunnel via_tunnel,
      same_bool_sound a.lan_bypass.enabled b.lan_bypass.enabled bypass,
      same_texts_sound a.lan_bypass.cidrs b.lan_bypass.cidrs cidrs,
      same_int_sound a.tun.mtu b.tun.mtu mtu,
      (eq_iff a.tun.stack b.tun.stack).0 stack,
      same_bool_sound a.tun.strict_route b.tun.strict_route strict,
    )

-- A change of the settings that is not flagged leaves all that the engine is given as it was: the
-- tunables of a session and the port of its SOCKS inbound.
pub engine_relevant_changed-tunables :
    (a b : Settings)
    → engine_relevant_changed a b ≡ false
    → (tunables_from_settings a ≡ tunables_from_settings b) × (a.socks_port ≡ b.socks_port)
unfolding engine_relevant_changed neutral deep_equal same_engine
engine_relevant_changed-tunables a b h =
    let equal : deep_equal (neutral a) (neutral b) ≡ true = ground arith in
    let engine =
      (and-eq-true (same_engine (neutral a) (neutral b)) (same_live (neutral a) (neutral b))
        equal).0 in
    (
      same_engine-tunables a b engine,
      same_int_sound a.socks_port b.socks_port (same_engine-port a b engine),
    )
