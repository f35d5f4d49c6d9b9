-- ===== src/Subscription/Refresh/Valid.antt =====
-- The invariant of a profile under a refresh.
use iron_link.Prelude.{
  ℕ, String, ◌≡◌, refl, sym, ap, subst, ◌==◌, DistinctBy-replace_first, Result, Result-cases, inl,
  inr,
}
use iron_link.Store.Profile.{Profile, Subscription}
use iron_link.Store.Mutators.{replace_subscription_nodes}
use iron_link.Store.Invariant.{IsValid, Mutation, apply, apply-IsValid}
use iron_link.Subscription.Refresh.{
  Outcome, FetchResult, update_sub, landed_nodes, land, fail, land_body, apply_fetch,
}
use iron_link.Subscription.Refresh.Kept.{unfetched, unparsed, landed, apply_fetch-land_body}

update_sub-IsValid :
    (id : String) (f : Subscription → Subscription) (p : Profile)
    → ((s : Subscription) → (f s).url ≡ s.url)
    → IsValid p
    → IsValid (update_sub id f p)
update_sub-IsValid id f p same v = record {
  active_node = v.active_node;
  active_routing = v.active_routing;
  urls = DistinctBy-replace_first (λ s. s.url) (λ s. s.id == id) f p.subscriptions same v.urls;
  ids = v.ids;
  names = v.names;
  valid_names = v.valid_names;
}

module _ (from_name : String → String) (parse : String → String → String → Result String Outcome)
    (now : ℕ) where
  land-IsValid :
      (p : Profile) (fr : FetchResult) (name : String) (o : Outcome)
      → IsValid p
      → IsValid (land from_name parse now p fr name o).0
  unfolding land apply
  land-IsValid p fr name o v =
      let ns = landed_nodes from_name parse now p fr.sub_id o in
      update_sub-IsValid fr.sub_id _ (replace_subscription_nodes p fr.sub_id ns) (λ s. refl)
        (apply-IsValid (Mutation.refresh_nodes fr.sub_id ns) p tt v)

  fail-IsValid :
      (p : Profile) (fr : FetchResult) (name message : String)
      → IsValid p
      → IsValid (fail from_name parse now p fr name message).0
  unfolding fail
  fail-IsValid p fr name message v = update_sub-IsValid fr.sub_id _ p (λ s. refl) v

  land_body-IsValid :
      (p : Profile) (fr : FetchResult) (name : String)
      → IsValid p
      → IsValid (land_body from_name parse now p fr name).0
  land_body-IsValid p fr name v = elim (Result-cases fr.body) [
    | inr (message, b) ↦
        subst IsValid (ap (λ r. r.0) (sym (unfetched from_name parse now p fr name message b)))
          (fail-IsValid p fr name message v)
    | inl (body, b) ↦ elim (Result-cases (parse body fr.sub_id fr.format)) [
      | inr (message, e) ↦
          subst IsValid
            (ap (λ r. r.0) (sym (unparsed from_name parse now p fr name body message b e)))
            (fail-IsValid p fr name message v)
      | inl (o, e) ↦
          subst IsValid (ap (λ r. r.0) (sym (landed from_name parse now p fr name body o b e)))
            (land-IsValid p fr name o v)
    ]
  ]

  -- A refresh keeps a profile valid, whatever was fetched and however it parses.
  pub apply_fetch-IsValid :
      (p : Profile) (fr : FetchResult)
      → IsValid p
      → IsValid (apply_fetch from_name parse now p fr).0
  apply_fetch-IsValid p fr v = elim (apply_fetch-land_body from_name parse now p fr) [
    | inl same ↦ subst IsValid (sym same) v
    | inr (name, same) ↦ subst IsValid (ap (λ r. r.0) (sym same)) (land_body-IsValid p fr name v)
  ]
