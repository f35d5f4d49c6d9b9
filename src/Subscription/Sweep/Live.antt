-- ===== src/Subscription/Sweep/Live.antt =====
-- How long a failure holds a subscription back from the sweep.
use iron_link.Prelude.{
  ℕ, ◌+◌, ◌≤◌, String, ◌≡◌, ◌⊎◌, refl, sym, subst, Bool, true, false, ◌==◌, ◌++◌, eq_refl, Option,
  none, some, List, [], ◌∷◌, arith, leb, All, All-delete_func, lookup, insert, remove,
  lookup-remove, has_key, Bool-cases, Option-cases, inl, inr,
}
use iron_link.Store.Profile.{Subscription}
use iron_link.Subscription.Schedule.{
  SubscriptionRetry, backoff_max, superseded_by, next_subscription_retry, subscription_due,
}
use iron_link.Subscription.Sweep.{
  Retries, drop_superseded, waits, is_ready, due_from, due_subscriptions, land_retry,
}

abbrev IsBounded : String × SubscriptionRetry → Type 0
IsBounded e = e.1.next ≤ e.1.failed_at + backoff_max

-- The retries that landed fetches and sweeps lead to.
pub data Reach : Retries → Type 0 where
  start : Reach []
  landed :
      {m : Retries}
      → Reach m
      → (now : ℕ) (failed : Bool) (id : String) → Reach (land_retry now failed id m)
  swept :
      {m : Retries}
      → Reach m
      → (now : ℕ) (subs : List Subscription) → Reach (due_subscriptions now m subs).0

remove-All : (id : String) (m : Retries) → All IsBounded m → All IsBounded (remove id m)
remove-All id [] h = h
remove-All id ((k, r) ∷ m) (b, h) = elim (Bool-cases (k == id)) [
  | inl e ↦ rw e (remove-All id m h)
  | inr e ↦ rw e (b, remove-All id m h)
]

insert-All :
    (id : String) (r : SubscriptionRetry) (m : Retries)
    → r.next ≤ r.failed_at + backoff_max
    → All IsBounded m
    → All IsBounded (insert id r m)
insert-All id r [] b h = (b, tt)
insert-All id r ((k, q) ∷ m) b (c, h) = elim (Bool-cases (k == id)) [
  | inl e ↦ rw e (b, h)
  | inr e ↦ rw e (c, insert-All id r m b h)
]

next_subscription_retry-le :
    (prev : Option SubscriptionRetry) (now : ℕ)
    → (next_subscription_retry prev now).next
      ≤ (next_subscription_retry prev now).failed_at + backoff_max
unfolding next_subscription_retry
next_subscription_retry-le none now = omega arith
next_subscription_retry-le (some r) now = ground arith

drop_superseded-cases :
    (now : ℕ) (m : Retries) (s : Subscription)
    → (drop_superseded now m s ≡ m) ⊎ (drop_superseded now m s ≡ remove s.id m)
unfolding drop_superseded
drop_superseded-cases now m s = elim (Option-cases (lookup s.id m)) [
  | inl e ↦ inl (rw (e, drop_superseded) refl)
  | inr (r, e) ↦ elim (Bool-cases (superseded_by r s now)) [
    | inl f ↦ inr (rw (e, f, drop_superseded) refl)
    | inr f ↦ inl (rw (e, f, drop_superseded) refl)
  ]
]

drop_superseded-All :
    (now : ℕ) (m : Retries) (s : Subscription)
    → All IsBounded m
    → All IsBounded (drop_superseded now m s)
drop_superseded-All now m s h = elim (drop_superseded-cases now m s) [
  | inl e ↦ subst (All IsBounded) (sym e) h
  | inr e ↦ subst (All IsBounded) (sym e) (remove-All s.id m h)
]

due_from-All :
    (now : ℕ) (m : Retries) (subs : List Subscription)
    → All IsBounded m
    → All IsBounded (due_from now m subs).0
unfolding due_from
due_from-All now m [] h = h
due_from-All now m (s ∷ ss) h =
    due_from-All now (drop_superseded now m s) ss (drop_superseded-All now m s h)

Reach-IsBounded : {m : Retries} → Reach m → All IsBounded m
unfolding land_retry due_subscriptions
Reach-IsBounded start = tt
Reach-IsBounded (landed {m} r now true id) =
    insert-All id (next_subscription_retry (lookup id m) now) m
      (next_subscription_retry-le (lookup id m) now) (Reach-IsBounded r)
Reach-IsBounded (landed {m} r now false id) = remove-All id m (Reach-IsBounded r)
Reach-IsBounded (swept {m} r now subs) =
    All-delete_func IsBounded _ (due_from now m subs).0
      (due_from-All now m subs (Reach-IsBounded r))

-- The last failure on record, if there is one, is an hour old.
abbrev pub is_rested : ℕ → Option SubscriptionRetry → Bool
is_rested now none = true
is_rested now (some r) = leb (r.failed_at + backoff_max) now

rested_ready :
    (now : ℕ) (m : Retries) (id : String)
    → All IsBounded m
    → is_rested now (lookup id m) ≡ true
    → waits now (lookup id m) ≡ false
rested_ready now [] id h k = refl
rested_ready now ((i, r) ∷ m) id (b, h) k = elim (Bool-cases (i == id)) [
  | inl e ↦ ground arith
  | inr e ↦ ground (arith, rested_ready now m id h)
]

drop_superseded-is_rested :
    (now : ℕ) (m : Retries) (s : Subscription) (id : String)
    → is_rested now (lookup id m) ≡ true
    → is_rested now (lookup id (drop_superseded now m s)) ≡ true
drop_superseded-is_rested now m s id h = elim (drop_superseded-cases now m s) [
  | inl e ↦ rw e h
  | inr e ↦ rw (e, lookup-remove s.id id m) (ground arith)
]

due_from-Live :
    (now : ℕ) (m : Retries) (before after : List Subscription) (s : Subscription)
    → All IsBounded m
    → subscription_due s now ≡ true
    → is_rested now (lookup s.id m) ≡ true
    → has_key (λ t. t.id) (due_from now m (before ++ s ∷ after)).1 s.id ≡ true
unfolding due_from is_ready
due_from-Live now m [] after s b due rested =
    let m1 = drop_superseded now m s in
    let idle =
      rested_ready now m1 s.id (drop_superseded-All now m s b)
        (drop_superseded-is_rested now m s s.id rested) in
    ground (arith, idle, eq_refl s.id)
due_from-Live now m (t ∷ before) after s b due rested =
    let m1 = drop_superseded now m t in
    let rest =
      due_from-Live now m1 before after s (drop_superseded-All now m t b) due
        (drop_superseded-is_rested now m t s.id rested) in
    ground (arith, rest)

-- A sweep picks every subscription that is due and whose failure on record, if any, is an hour old,
-- whatever fetches landed and sweeps ran before.
pub due_subscriptions-Live :
    (now : ℕ) (m : Retries) (before after : List Subscription) (s : Subscription)
    → Reach m
    → subscription_due s now ≡ true
    → is_rested now (lookup s.id m) ≡ true
    → has_key (λ t. t.id) (due_subscriptions now m (before ++ s ∷ after)).1 s.id ≡ true
unfolding due_subscriptions
due_subscriptions-Live now m before after s r due rested =
    due_from-Live now m before after s (Reach-IsBounded r) due rested
