-- ===== src/Manager/Verbs/Updated.antt =====
-- The verbs on subscriptions, and what they keep of a profile.
use iron_link.Prelude.{
  String, Bool, false, ◌==◌, ◌≡◌, refl, ◌∙◌, ◌⊎◌, inl, inr, Option, none, some, List, [], ◌∷◌, find,
  replace_first, has_key, DistinctBy, eq_iff, arith, ok, Result-cases, Option-cases, Bool-cases,
}
use iron_link.Api.Request.{Request}
use iron_link.Store.Profile.{Profile, Subscription, find_subscription}
use iron_link.Store.Mutators.{add_subscription}
use iron_link.Store.Invariant.{Mutation, apply, apply-IsValid}
use iron_link.Store.Invariant.Ids.{apply-HasIds}
use iron_link.Store.Invariant.Defs.{sub_url}
use iron_link.Subscription.Refresh.Valid.{apply_fetch-IsValid}
use iron_link.Subscription.Rounds.{Fetching, refresh, refresh-kept}
use iron_link.Manager.Verbs.{edit_sub, format_of, names_sub, update_subscription, parse_format}
use iron_link.Manager.Verbs.Ids.{apply_fetch-HasIds}
use iron_link.Manager.Verbs.Subs.{add_sub, refresh_subs}
use iron_link.Manager.Verbs.Stored.{IsWhole}

-- One write of a value under the key of another.
module _ (t : Subscription → Bool) (y : Subscription) where
  abbrev rewrite : List Subscription → List Subscription
  rewrite = replace_first t (λ _. y)

  -- The new URL is that of the value that is replaced.
  has_url-same :
      (xs : List Subscription) (x : Subscription) (a : String)
      → find t xs ≡ some x
      → y.url ≡ x.url
      → has_key sub_url (rewrite xs) a ≡ has_key sub_url xs a
  has_url-same [] x a f same = refl
  has_url-same (z ∷ zs) x a f same = elim (Bool-cases (t z)) [
    | inl e ↦ let this : z ≡ x = ground arith in rw (e, same, ← this) refl
    | inr e ↦ rw (e, has_url-same zs x a (ground arith) same) refl
  ]

  urls-same :
      (xs : List Subscription) (x : Subscription)
      → find t xs ≡ some x
      → y.url ≡ x.url
      → DistinctBy sub_url xs
      → DistinctBy sub_url (rewrite xs)
  urls-same [] x f same d = tt
  urls-same (z ∷ zs) x f same (h, d) = elim (Bool-cases (t z)) [
    | inl e ↦
        let this : z ≡ x = ground arith in
        let url : y.url ≡ z.url = rw this same in rw e (rw url h, d)
    | inr e ↦
        let rest : find t zs ≡ some x = ground arith in
        rw e (has_url-same zs x z.url rest same ∙ h, urls-same zs x rest same d)
  ]

  -- No stored value has the new URL.
  has_url-new :
      (xs : List Subscription) (a : String)
      → has_key sub_url xs a ≡ false
      → (y.url == a) ≡ false
      → has_key sub_url (rewrite xs) a ≡ false
  has_url-new [] a h k = refl
  has_url-new (z ∷ zs) a h k = ground (arith, has_url-new zs a)

  urls-new :
      (xs : List Subscription)
      → has_key sub_url xs y.url ≡ false
      → DistinctBy sub_url xs
      → DistinctBy sub_url (rewrite xs)
  urls-new [] k d = tt
  urls-new (z ∷ zs) k (h, d) =
      ground (arith, has_url-new zs z.url, urls-new zs, eq_iff z.url y.url, eq_iff y.url z.url)

-- The URL of the edited subscription is as it was, or no stored subscription has it.
abbrev pub IsFreeUrl : {Raw : Type 0} → Request Raw → String → Profile → Type 0
IsFreeUrl req ref p =
    (sub : Subscription)
    → find_subscription p ref ≡ some sub
    → ((edit_sub req sub).url ≡ sub.url)
      ⊎ (has_key sub_url p.subscriptions (edit_sub req sub).url ≡ false)

format_of-url : (f : Option String) (s s' : Subscription) → format_of f s ≡ ok s' → s'.url ≡ s.url
format_of-url none s s' h = ground arith
format_of-url (some f) s s' h = elim (Result-cases (parse_format f)) [
  | inl (g, e) ↦ ground arith
  | inr (bad, e) ↦ absurd (ground arith)
]

pub update_subscription-IsWhole :
    {Raw : Type 0} (req : Request Raw) (ref : String) (p : Profile)
    → IsFreeUrl req ref p
    → IsWhole p
    → IsWhole (update_subscription req ref p).0
unfolding update_subscription find_subscription
update_subscription-IsWhole req ref p free whole = elim (Option-cases (find_subscription p ref)) [
  | inl e ↦ rw (update_subscription, e) whole
  | inr (sub, e) ↦ elim (Result-cases (format_of req.format (edit_sub req sub))) [
    | inr (bad, g) ↦ rw (update_subscription, e, g) whole
    | inl (edited, g) ↦
        let v = whole.valid in
        let url = format_of-url req.format (edit_sub req sub) edited g in
        let urls : DistinctBy sub_url
            (replace_first (names_sub ref) (λ _. edited) p.subscriptions) =
          elim (free sub e) [
            | inl same ↦ urls-same (names_sub ref) edited p.subscriptions sub e (url ∙ same) v.urls
            | inr new ↦ urls-new (names_sub ref) edited p.subscriptions (rw url new) v.urls
          ] in
        rw (update_subscription, e, g)
          (record {
            valid = record {
              active_node = v.active_node;
              active_routing = v.active_routing;
              urls = urls;
              ids = v.ids;
              names = v.names;
              valid_names = v.valid_names;
            };
            ids = whole.ids;
          })
  ]
]

refresh-IsWhole :
    (f : Fetching) (only : String) (p : Profile) → IsWhole p → IsWhole (refresh f only p).0
refresh-IsWhole f only p whole =
    refresh-kept f only IsWhole
      (λ now q fr h. record {
        valid = apply_fetch-IsValid f.from_name f.parse now q fr h.valid;
        ids = apply_fetch-HasIds f.from_name f.parse now q fr h.ids;
      })
      p whole

pub refresh_subs-IsWhole :
    (f : Fetching) (only : String) (p : Profile) → IsWhole p → IsWhole (refresh_subs f only p).0
unfolding refresh_subs
refresh_subs-IsWhole f only p whole =
    let done = refresh-IsWhole f only p whole in ground (arith, done)

pub add_sub-IsWhole :
    (f : Fetching) (sub : Subscription) (p : Profile) → IsWhole p → IsWhole (add_sub f sub p).0
unfolding add_sub apply
add_sub-IsWhole f sub p whole =
    let added : IsWhole (add_subscription p sub).0 = record {
      valid = apply-IsValid (Mutation.put_sub sub) p tt whole.valid;
      ids = apply-HasIds (Mutation.put_sub sub) p tt whole.ids;
    } in
    elim (Result-cases (add_subscription p sub).1) [
      | inr (e, h) ↦ rw (add_sub, h) added
      | inl (id, h) ↦ rw (add_sub, h) (refresh-IsWhole f id (add_subscription p sub).0 added)
    ]
