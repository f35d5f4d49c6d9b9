-- ===== src/Engine/Route/Compiles.antt =====
-- Which targets resolve, and which routing configs compile to a route block.
use iron_link.Prelude.{
  ℕ, ◌+◌, String, ◌≡◌, refl, Bool, true, false, ◌||◌, Option, none, some, List, [], ◌∷◌, arith,
  ◌&&◌, all, ◌==◌, eq_iff, if◌then◌else◌, find, is_ok, has_key, inl, inr, Option-cases,
}
use iron_link.Routing
use iron_link.Routing.{
  RuleTarget, Rule, rule, target_of, target_direct, target_block, target_default_proxy,
  target_dpi_bypass, target_node, target_hijack_dns, target_sniff, target_resolve, conditions,
}
use iron_link.Engine.Plan.{SessionPlan, is_member}
use iron_link.Engine.Plan.Lookup.{contains-parts}
use iron_link.Engine.Route.{
  embedded_tag, resolve_target, compile_rule, compile_rules, route_parts, route_block,
}

-- One of the three lists: its search by id finds the id itself.
find_id :
    {A : Type 0} (f : A → String) (a : String) (xs : List A) (rest : Option String)
    → (elim (find (λ x. f x == a) xs) [ some x ↦ some (f x) | none ↦ rest ])
      ≡ (if has_key f xs a then some a else rest)
find_id f a [] rest = refl
find_id f a (x ∷ xs) rest = ground (arith, find_id f a xs rest, eq_iff (f x) a)

embedded_tag_lem :
    (p : SessionPlan) (a : String) → embedded_tag p a ≡ (if is_member p a then some a else none)
unfolding embedded_tag
embedded_tag_lem p a = ground (
  arith,
  contains-parts p a,
  find_id (λ g. g.id) a p.groups none,
  find_id (λ n. n.id) a p.xray_nodes (if has_key (λ g. g.id) p.groups a then some a else none),
  find_id (λ n. n.id) a p.natives
      (if has_key (λ n. n.id) p.xray_nodes a
        then some a
        else if has_key (λ g. g.id) p.groups a
        then some a
        else none),
)

-- The targets that a plan can route to, and those a rule may carry.
abbrev pub is_routable : SessionPlan → RuleTarget → Bool
is_routable p t =
    t.kind == target_direct
    || t.kind == target_block
    || t.kind == target_default_proxy
    || (t.kind == target_node && is_member p t.node)

abbrev pub is_compilable : SessionPlan → RuleTarget → Bool
is_compilable p t =
    t.kind == target_hijack_dns
    || t.kind == target_sniff
    || t.kind == target_resolve
    || is_routable p t

-- Whether a config compiles for a plan.
abbrev pub compiles : SessionPlan → Option Routing.Config → Bool
compiles p none = true
compiles p (some rc) =
    is_routable p rc.default_target && all (λ r. is_compilable p (target_of r)) rc.rules

dpi_bypass_not_node : (k : String) → (k == target_dpi_bypass) ≡ true → (k == target_node) ≡ false
dpi_bypass_not_node k h = rw ((eq_iff k target_dpi_bypass).0 h) refl

is_ok-resolve_target :
    (p : SessionPlan) (t : RuleTarget) → is_ok (resolve_target p t) ≡ is_routable p t
unfolding resolve_target
is_ok-resolve_target p t =
    rw (embedded_tag_lem p t.node) (ground (arith, dpi_bypass_not_node t.kind))

module _ (trim : String → String) (text_of : String → Option String) where
  is_ok-compile_rule :
      (p : SessionPlan) (r : Rule)
      → is_ok (compile_rule trim text_of p r) ≡ is_compilable p (target_of r)
  unfolding compile_rule
  is_ok-compile_rule p (rule t rs cs) = ground (arith, is_ok-resolve_target p t)

  is_ok-compile_rules :
      (p : SessionPlan) (i : ℕ) (rs : List Rule)
      → is_ok (compile_rules trim text_of p i rs) ≡ all (λ r. is_compilable p (target_of r)) rs
  unfolding compile_rules
  is_ok-compile_rules p i [] = refl
  is_ok-compile_rules p i (r ∷ rs) =
      ground (arith, is_ok-compile_rule p r, is_ok-compile_rules p (i + 1) rs)

  -- The route block of a plan is built exactly when the default target is Direct, Block,
  -- DefaultProxy or an embedded node or group, and every rule has such a target or one of the
  -- actions HijackDns, Sniff and Resolve.
  pub is_ok-route_block :
      (p : SessionPlan) (tun : Bool) (resolver : String)
      → is_ok (route_block trim text_of p tun resolver) ≡ compiles p p.routing
  unfolding route_block route_parts
  is_ok-route_block p tun resolver = elim (Option-cases p.routing) [
    | inl e ↦ rw e refl
    | inr (rc, e) ↦
        rw e (
          ground
            (arith, is_ok-resolve_target p rc.default_target, is_ok-compile_rules p 1 rc.rules))
  ]
