-- ===== src/Store/Settings/Accepted.antt =====
-- Which settings documents are accepted.
use iron_link.Prelude.{
  ℕ, String, true, false, ◌≡◌, refl, ◌≢◌, ◌↔◌, ◌==◌, ◌≤◌, eq_iff, some, List, [], ◌∷◌, is_empty,
  contains, All, ok, Option-cases, sym, ◌∙◌, ◌⊎◌, arith, reject_if, ↔_trans, >>-iff, reject_if-ok,
  reject_if-not-ok, Result-cases, Bool-cases, inl, inr, >>=-eq-ok,
}
use iron_link.Json.{ℤ, pos, negsuc}
use iron_link.Api.Settings.{Settings, DnsServer}
use iron_link.Store.Files.{
  Os, Disk, Codec, at, undecodable, read_file, settings_file, when_missing-ok, SettingsError,
  unknown_log_level, unknown_ip_version, unknown_dns_strategy, no_dns_server,
}
use iron_link.Store.Settings.{
  check_tail, checked_settings, default_ip_version, windows, Net, log_levels, ip_versions,
  dns_strategies, tun_stacks, one_of, out_of_range, check_servers, check_cidrs, is_http_url,
  validate_settings, default_settings, load_settings,
}

-- A number from lo to hi.
abbrev pub InRange : ℕ → ℕ → ℤ → Type 0
InRange lo hi x = (n : ℕ) × (x ≡ pos n) × (lo ≤ n) × (n ≤ hi)

-- A URL that parses, with scheme http or https, and with a host.
abbrev pub IsWebUrl : Net → String → Type 0
IsWebUrl net url =
    (scheme : String) × (host : String) × (net.parse_url url ≡ some (scheme, host))
    × ((scheme ≡ "http") ⊎ (scheme ≡ "https"))
    × (host ≢ "")

abbrev pub IsUsable : Net → DnsServer → Type 0
IsUsable net srv =
    (contains ("udp" ∷ "tls" ∷ "https" ∷ []) srv.kind ≡ true) × (net.parses_addr srv.address ≡ true)

pub record IsAccepted (net : Net) (s : Settings) : Type 0 where
  pub log_level : contains ("error" ∷ "warn" ∷ "info" ∷ "debug" ∷ []) s.log_level ≡ true
  pub ip_version : contains ("v4" ∷ "v6" ∷ "both" ∷ []) s.ip_version ≡ true
  pub strategy :
      contains ("" ∷ "prefer_ipv4" ∷ "prefer_ipv6" ∷ "ipv4_only" ∷ "ipv6_only" ∷ []) s.dns.strategy
      ≡ true
  pub some_server : is_empty s.dns.servers ≡ false
  pub servers : All (IsUsable net) s.dns.servers
  pub cidrs : All (λ cidr. net.parses_prefix cidr ≡ true) s.lan_bypass.cidrs
  pub user_agent : s.subscription_user_agent ≢ ""
  pub port : InRange 1 65535 s.socks_port
  pub mtu : InRange 576 65535 s.tun.mtu
  pub stack : contains ("system" ∷ "gvisor" ∷ "mixed" ∷ []) s.tun.stack ≡ true
  pub url : IsWebUrl net s.latency_probe.url
  pub budget : InRange 5 300 s.latency_probe.budget_secs

out_of_range_iff : (lo hi : ℕ) (x : ℤ) → (out_of_range lo hi x ≡ false) ↔ InRange lo hi x
unfolding out_of_range
out_of_range_iff lo hi (pos n) = (
  (λ h. (n, refl, ground arith, ground arith)),
  (λ (m, e, a, b). let same : n ≡ m = cc in ground arith),
)
out_of_range_iff lo hi (negsuc n) = ((λ h. cc), (λ (m, e, a, b). cc))

module _ (net : Net) where
  check_servers_iff : (xs : List DnsServer) → (check_servers net xs ≡ ok tt) ↔ All (IsUsable net) xs
  unfolding check_servers one_of
  check_servers_iff [] = ((λ h. tt), (λ h. refl))
  check_servers_iff (x ∷ xs) =
      let (to, from) = check_servers_iff xs in
      (
        (λ h. ((ground arith, ground arith), to (ground arith))),
        (λ ((a, b), all). let rest = from all in ground arith),
      )

  check_cidrs_iff :
      (xs : List String)
      → (check_cidrs net xs ≡ ok tt) ↔ All (λ cidr. net.parses_prefix cidr ≡ true) xs
  unfolding check_cidrs
  check_cidrs_iff [] = ((λ h. tt), (λ h. refl))
  check_cidrs_iff (x ∷ xs) =
      let (to, from) = check_cidrs_iff xs in
      ((λ h. (ground arith, to (ground arith))), (λ (a, all). let rest = from all in ground arith))

  range_iff :
      (lo hi : ℕ) (x : ℤ) (e : SettingsError)
      → (reject_if (out_of_range lo hi x) e ≡ ok tt) ↔ InRange lo hi x
  range_iff lo hi x e = ↔_trans (reject_if-ok (out_of_range lo hi x) e) (out_of_range_iff lo hi x)

  nonempty_iff : (x : String) (e : SettingsError) → (reject_if (x == "") e ≡ ok tt) ↔ (x ≢ "")
  nonempty_iff x e = (
    (λ h k. let bad = (reject_if-ok (x == "") e).0 h in ground (arith, eq_iff x "")),
    (λ h. (reject_if-ok (x == "") e).1 (ground (arith, eq_iff x ""))),
  )

  is_http_url_iff : (url : String) → (is_http_url net url ≡ true) ↔ IsWebUrl net url
  unfolding is_http_url
  is_http_url_iff url = elim (Option-cases (net.parse_url url)) [
    | inl e ↦ ((λ h. absurd (ground arith)), (λ (scheme, host, k, web, some_host). cc))
    | inr ((scheme, host), e) ↦
        rw (is_http_url, e)
          (
            (λ h. (
              scheme,
              host,
              refl,
              elim (Bool-cases (scheme == "http")) [
                | inl plain ↦ inl ((eq_iff scheme "http").0 plain)
                | inr other ↦ inr ((eq_iff scheme "https").0 (ground arith))
              ],
              λ blank. ground (arith, eq_iff host ""),
            )),
            (λ (scheme', host', k, web, some_host).
                let same : scheme ≡ scheme' = ground arith in
                let alike : host ≡ host' = ground arith in
                let filled : (host == "") ≡ false = elim (Bool-cases (host == "")) [
                  | inl blank ↦ absurd (some_host (sym alike ∙ (eq_iff host "").0 blank))
                  | inr other ↦ other
                ] in
                elim web [
                  | inl plain ↦ let known = (eq_iff scheme "http").1 (same ∙ plain) in ground arith
                  | inr secure ↦
                      let known = (eq_iff scheme "https").1 (same ∙ secure) in ground arith
                ]),
          )
  ]

  -- The checks from the user agent on.
  tail_iff :
      (s : Settings)
      → (check_tail net s ≡ ok tt) ↔ (
          (s.subscription_user_agent ≢ "")
          × (InRange 1 65535 s.socks_port
              × (InRange 576 65535 s.tun.mtu
                  × ((contains tun_stacks s.tun.stack ≡ true)
                      × (IsWebUrl net s.latency_probe.url
                          × InRange 5 300 s.latency_probe.budget_secs)))))
  unfolding check_tail one_of
  tail_iff s = >>-iff _ _ (nonempty_iff s.subscription_user_agent _) (
      >>-iff _ _ (range_iff 1 65535 s.socks_port _) (
        >>-iff _ _ (range_iff 576 65535 s.tun.mtu _) (
          >>-iff _ _ (reject_if-not-ok (contains tun_stacks s.tun.stack) _) (
            >>-iff _ _
              (↔_trans (reject_if-not-ok (is_http_url net s.latency_probe.url) _)
                (is_http_url_iff s.latency_probe.url))
              (range_iff 5 300 s.latency_probe.budget_secs _)))))

  -- Exactly these documents are accepted: the log level, the IP version, the resolver's strategy, the
  -- kinds of the resolver's servers and the TUN stack are known words; there is a server, and the
  -- servers' addresses and the bypassed ranges parse; the user agent is not empty; the port, the MTU
  -- and the probe's budget are in range; and the probe's URL parses, with scheme http or https and
  -- with a host.
  pub validate_settings_iff : (s : Settings) → (validate_settings net s ≡ ok tt) ↔ IsAccepted net s
  unfolding validate_settings one_of
  validate_settings_iff s =
      let checks =
        >>-iff _ _
          (reject_if-not-ok (contains log_levels s.log_level) (unknown_log_level s.log_level))
          (>>-iff _ _
            (reject_if-not-ok (contains ip_versions s.ip_version) (unknown_ip_version s.ip_version))
            (>>-iff _ _
              (reject_if-not-ok (contains dns_strategies s.dns.strategy)
                (unknown_dns_strategy s.dns.strategy))
              (>>-iff _ _ (reject_if-ok (is_empty s.dns.servers) no_dns_server) (
                >>-iff _ _ (check_servers_iff s.dns.servers)
                  (>>-iff _ _ (check_cidrs_iff s.lan_bypass.cidrs) (tail_iff s)))))) in
      (
        (λ h.
            let (log_level, (ip_version, (strategy, (some_server, (servers, (cidrs, tail)))))) =
              checks.0 h in
            let (user_agent, (port, (mtu, (stack, (url, budget))))) = tail in
            record {
              log_level = log_level;
              ip_version = ip_version;
              strategy = strategy;
              some_server = some_server;
              servers = servers;
              cidrs = cidrs;
              user_agent = user_agent;
              port = port;
              mtu = mtu;
              stack = stack;
              url = url;
              budget = budget;
            }),
        (λ v. checks.1 (
          v.log_level,
          (
            v.ip_version,
            (
              v.strategy,
              (
                v.some_server,
                (
                  v.servers,
                  (v.cidrs, (v.user_agent, (v.port, (v.mtu, (v.stack, (v.url, v.budget)))))),
                ),
              ),
            ),
          ),
        )),
      )

  -- What the program takes of the parsers: the texts of the default document are well-formed.
  pub record IsNet : Type 0 where
    pub address : net.parses_addr "8.8.8.8" ≡ true
    pub link_local : net.parses_prefix "169.254.0.0/16" ≡ true
    pub ula : net.parses_prefix "fc00::/7" ≡ true
    pub link_local6 : net.parses_prefix "fe80::/10" ≡ true
    pub url :
        net.parse_url "https://www.gstatic.com/generate_204" ≡ some ("https", "www.gstatic.com")

  default_ip_version-known : (goos : String) → contains ip_versions (default_ip_version goos) ≡ true
  unfolding default_ip_version
  default_ip_version-known goos = elim (Bool-cases (goos == windows)) [
    | inl e ↦ rw (e, default_ip_version) refl
    | inr e ↦ rw (e, default_ip_version) refl
  ]

  checked_settings-IsAccepted :
      (s s' : Settings) → checked_settings net s ≡ ok s' → IsAccepted net s'
  unfolding checked_settings
  checked_settings-IsAccepted s s' h = elim (Result-cases (validate_settings net s)) [
    | inr (e, k) ↦ cc (h, k)
    | inl (v, k) ↦ let same : s ≡ s' = ground arith in rw (← same) ((validate_settings_iff s).0 k)
  ]

  default_settings-IsAccepted : IsNet → (goos : String) → IsAccepted net (default_settings goos)
  unfolding default_settings is_http_url
  default_settings-IsAccepted law goos = record {
    log_level = refl;
    ip_version = default_ip_version-known goos;
    strategy = refl;
    some_server = refl;
    servers = ((refl, law.address), tt);
    cidrs = (law.link_local, (law.ula, (law.link_local6, tt)));
    user_agent = λ e. cc;
    port = (10808, refl, omega arith, omega arith);
    mtu = (1500, refl, omega arith, omega arith);
    stack = refl;
    url = (_, _, law.url, inr refl, λ e. cc);
    budget = (45, refl, omega arith, omega arith);
  }

  -- Whatever stands in the file, a document that is loaded is accepted by the validation.
  pub load_settings-IsAccepted :
      {Raw : Type 0} (c : Codec Raw) (goos : String) (os : Os) (d : Disk Raw) (s : Settings)
      → IsNet
      → load_settings net c goos os d ≡ ok s
      → IsAccepted net s
  unfolding load_settings
  load_settings-IsAccepted c goos os d s law h =
      elim (Result-cases (read_file os d settings_file)) [
        | inr (e, k) ↦
            let same = when_missing-ok (default_settings goos) s e (ground arith) in
            rw (← same) (default_settings-IsAccepted law goos)
        | inl (raw, k) ↦
            let (base, decoded, checked) =
              >>=-eq-ok
                (at (undecodable settings_file) (c.decode_settings (default_settings goos) raw))
                (checked_settings net) {out = s} (ground arith) in
            checked_settings-IsAccepted base s checked
      ]
