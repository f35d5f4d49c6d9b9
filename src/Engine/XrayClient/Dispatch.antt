-- ===== src/Engine/XrayClient/Dispatch.antt =====
-- The outbounds that the xray members are dispatched to.
use iron_link.Prelude.{
  String, ◌≡◌, refl, ◌∙◌, some, List, [], ◌∷◌, map, lookup, insert, lookup-insert, ok, >>=-eq-ok,
  ok-injective, Option-cases, inl, inr, arith,
}
use iron_link.Json.{str, obj, JsonMap}
use iron_link.Proxy.Profile.{xray_outbound}
use iron_link.Engine.Plan.{NamedNode}
use iron_link.Engine.XrayClient.{put_field, as_map, sockopt, tagged_outbound, xray_outbounds}

lookup-tagged_outbound :
    (tag : String) (ob : JsonMap) → lookup "tag" (tagged_outbound tag ob) ≡ some (str tag)
unfolding tagged_outbound
lookup-tagged_outbound tag ob =
    let tagged = insert "tag" (str tag) ob in
    lookup-insert "streamSettings" "tag"
      (obj (put_field "sockopt" sockopt (as_map (lookup "streamSettings" tagged)))) tagged
    ∙ lookup-insert "tag" "tag" (str tag) ob

-- The outbounds of a client config carry the ids of the xray members as their tags, in order, so a
-- dispatch under a member's id reaches that member and the first member is the default.
pub xray_outbounds-tags :
    (ns : List NamedNode) (obs : List JsonMap)
    → xray_outbounds ns ≡ ok obs
    → map (λ ob. lookup "tag" ob) obs ≡ map (λ n. some (str n.id)) ns
unfolding xray_outbounds
xray_outbounds-tags [] obs h = rw (← ok-injective h) refl
xray_outbounds-tags (n ∷ ns) obs h = elim (Option-cases n.profile) [
  | inl gone ↦ absurd (ground arith)
  | inr (p, e) ↦ elim (Option-cases (xray_outbound p)) [
    | inl refused ↦ absurd (ground arith)
    | inr (ob, made) ↦
        let (rest, more, last) =
          >>=-eq-ok (xray_outbounds ns) (λ r. ok (tagged_outbound n.id ob ∷ r)) {out = obs}
            (ground arith) in
        rw (← ok-injective last)
          (rw (lookup-tagged_outbound n.id ob, xray_outbounds-tags ns rest more) refl)
  ]
]
