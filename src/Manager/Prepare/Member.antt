-- ===== src/Manager/Prepare/Member.antt =====
-- The node of a prepared activation, and its plan.
use iron_link.Prelude.{
  List, arith, String, Bool, true, false, ◌≡◌, ◌∙◌, sym, subst, Option, none, some, Result, ok, err,
  >>=-eq-ok, ok-injective, Result-cases, inl, inr, contains, ap,
}
use iron_link.Json.{ℤ, Json, JsonMap}
use iron_link.Routing
use iron_link.Api.Request.{Request}
use iron_link.Api.Settings.{Settings}
use iron_link.Store.Profile.{Profile, Node}
use iron_link.Store.Files.{Os, Disk}
use iron_link.Store.Settings.{load_settings}
use iron_link.Engine.Plan.{SessionPlan, validate, is_member, member_tags}
use iron_link.Engine.Plan.Validity.{validate_iff}
use iron_link.Engine.Host.{Host}
use iron_link.Engine.Tunables.{effective_tunables}
use iron_link.Manager.BuildPlan.{embed_nodes, groups_in_play, targets_of, lower_groups}
use iron_link.Manager.BuildPlan.Nodes.{tags_of}
use iron_link.Manager.BuildPlan.Sound.{no_members, first_group}
use iron_link.Engine.Configs.{
  socks_inbound, tun_inbound, session_configs, plan_tun_configs, plan_socks_configs,
}
use iron_link.Manager.BuildPlan.{Warning, build_plan, embedded_plan}
use iron_link.Manager.Prepare.{
  Env, Activation, PrepareError, wrap, store_failed, cannot_build, cannot_compile, flag, Resolved,
  resolve_names, complete, compile_activation, plan_activation, compile_plan, tun_interface_name,
  prepare_activation, or_else_int,
}

-- The activation was prepared at some time, from whatever was stored then.
abbrev pub IsPrepared : {Raw : Type 0} → Env Raw → Activation → Type 0
IsPrepared {Raw = Raw} env prep =
    (os : Os) × (privilege : Option String) × (d : Disk Raw) × (req : Request Raw)
    × (prepare_activation env os privilege d req ≡ ok prep)

wrap-ok {ℓ κ} :
    {E : Type ℓ} {A : Type κ} (f : E → PrepareError) (r : Result E A) (a : A)
    → wrap f r ≡ ok a
    → r ≡ ok a
wrap-ok f (ok b) a h = ap ok (ok-injective h)
wrap-ok f (err e) a h = cc

session_configs-valid :
    (env_host : Host) (p : SessionPlan) (tun : Bool) (inbound : JsonMap) (stub : String)
    (out : JsonMap × Json)
    → session_configs env_host p tun inbound stub ≡ ok out
    → validate p ≡ ok tt
unfolding session_configs
session_configs-valid env_host p tun inbound stub out h = elim (Result-cases (validate p)) [
  | inl (v, e) ↦ e
  | inr (e, bad) ↦ absurd (ground arith)
]

module _ {Raw : Type 0} (env : Env Raw) where
  compile_plan-valid :
      (privilege : Option String) (tun : Bool) (plan : SessionPlan) (port : ℤ)
      (out : JsonMap × Json)
      → compile_plan env privilege tun plan port ≡ ok out
      → validate plan ≡ ok tt
  unfolding compile_plan plan_socks_configs plan_tun_configs
  compile_plan-valid privilege false plan port out h =
      session_configs-valid env.host plan false (socks_inbound "127.0.0.1" port) _ out
        (wrap-ok cannot_compile (plan_socks_configs env.host plan "127.0.0.1" port) out h)
  compile_plan-valid none true plan port out h =
      session_configs-valid env.host plan true
        (tun_inbound env.host plan (effective_tunables plan.tunables)
          (tun_interface_name env.host.goos))
        _ out
        (wrap-ok cannot_compile (plan_tun_configs env.host plan (tun_interface_name env.host.goos))
          out h)
  compile_plan-valid (some e) true plan port out h = cc

  build_plan-active_tag :
      (p : Profile) (active : Node) (rc : Option Routing.Config) (plan : SessionPlan)
      (warnings : List Warning)
      → build_plan p active rc ≡ ok (plan, warnings)
      → plan.active_tag ≡ active.id
  unfolding build_plan embedded_plan
  build_plan-active_tag p active rc plan warnings h =
      let (plan0, embedded, last) = >>=-eq-ok (embedded_plan p active rc) _ h in
      let (m, _, h1) = >>=-eq-ok (embed_nodes active.id no_members p.nodes) _ embedded in
      let gs = groups_in_play p (first_group active) (targets_of rc) in
      let (plans, _, h2) = >>=-eq-ok (lower_groups p active.id (tags_of m) gs) _ h1 in
      let first : plan0.active_tag ≡ active.id =
        sym (ap (λ (q : SessionPlan). q.active_tag) (ok-injective h2)) in
      ap (λ (q : SessionPlan × List Warning). q.0.active_tag) (sym (ok-injective last)) ∙ first

  compile_activation-is_member :
      (privilege : Option String) (tun : Bool) (r : Resolved) (built : SessionPlan)
      (warnings : List Warning) (settings : Settings) (prep : Activation)
      → built.active_tag ≡ r.node.id
      → compile_activation env privilege tun r built warnings settings ≡ ok prep
      → is_member prep.plan prep.node_id ≡ true
  unfolding compile_activation is_member
  compile_activation-is_member privilege tun r built warnings settings prep tag h =
      let plan = complete env built settings in
      let port = or_else_int env.socks_override settings.socks_port in
      let (configs, compiled, last) = >>=-eq-ok (compile_plan env privilege tun plan port) _ h in
      let valid = compile_plan-valid privilege tun plan port configs compiled in
      let member : contains (member_tags plan) r.node.id ≡ true =
        subst (λ t. contains (member_tags plan) t ≡ true) tag
          ((validate_iff plan).0 valid).active in
      subst (λ (q : Activation). is_member q.plan q.node_id ≡ true) (ok-injective last) member

  plan_activation-is_member :
      (os : Os) (privilege : Option String) (d : Disk Raw) (tun : Bool) (r : Resolved)
      (prep : Activation)
      → plan_activation env os privilege d tun r ≡ ok prep
      → is_member prep.plan prep.node_id ≡ true
  unfolding plan_activation
  plan_activation-is_member os privilege d tun r prep h =
      let (built, planned, h1) =
        >>=-eq-ok (wrap cannot_build (build_plan r.profile r.node r.routing)) _ h in
      let (settings, loaded, h2) =
        >>=-eq-ok (wrap store_failed (load_settings env.net env.codec env.host.goos os d)) _ h1 in
      let tag =
        build_plan-active_tag r.profile r.node r.routing built.0 built.1
          (wrap-ok cannot_build (build_plan r.profile r.node r.routing) built planned) in
      compile_activation-is_member privilege tun r built.0 built.1 settings prep tag h2

  -- The node that an activation was prepared for is a member of its plan.
  pub prepared-is_member :
      (prep : Activation) → IsPrepared env prep → is_member prep.plan prep.node_id ≡ true
  unfolding prepare_activation
  prepared-is_member prep (os, privilege, d, req, h) =
      let (r, resolved, planned) = >>=-eq-ok (resolve_names env os d req) _ h in
      plan_activation-is_member os privilege d (flag req.tun) r prep planned
