-- ===== src/Subscription/Schedule.antt =====
-- When a subscription is refreshed (daemon-go/cmd/iron-link-daemon/manager_subscriptions.go). Times
-- and durations are nanoseconds.
use iron_link.Prelude.{
  ℕ, suc, ◌+◌, ◌*◌, ◌-◌, ◌^◌, List, [], ◌∷◌, length, ◌≡◌, refl, Bool, true, false, not, ◌||◌, ◌&&◌,
  Option, none, some, ltb, leb, eqb, arith, if◌then◌else◌,
}
use iron_link.Store.Profile.{Subscription}

abbrev pub backoff_min : ℕ
backoff_min = 600000000000

abbrev pub backoff_max : ℕ
backoff_max = 3600000000000

pub record SubscriptionRetry : Type 0 where
  pub failed_at : ℕ
  pub delay : ℕ
  pub next : ℕ

unfoldable pub superseded_by : SubscriptionRetry → Subscription → ℕ → Bool
superseded_by r sub now = ltb r.failed_at sub.last_updated && not (ltb now sub.last_updated)

abbrev min_of : ℕ → ℕ → ℕ
min_of a b = if leb a b then a else b

unfoldable pub next_subscription_retry : Option SubscriptionRetry → ℕ → SubscriptionRetry
next_subscription_retry none now = record {
  failed_at = now;
  delay = backoff_min;
  next = now + backoff_min;
}
next_subscription_retry (some prev) now =
    let delay = min_of (prev.delay * 2) backoff_max in
    record { failed_at = now; delay = delay; next = now + delay }

unfoldable pub subscription_due : Subscription → ℕ → Bool
subscription_due sub now =
    if not sub.enabled || eqb sub.update_interval_sec 0
    then false
    else if ltb now sub.last_updated
    then true
    else leb (sub.update_interval_sec * 1000000000) (now - sub.last_updated)

-- The retry after consecutive failures at the given times, the last one first.
abbrev pub retry_after : List ℕ → Option SubscriptionRetry
retry_after [] = none
retry_after (now ∷ earlier) = some (next_subscription_retry (retry_after earlier) now)

-- Ten minutes, doubled for each failure before, and an hour at most.
abbrev pub capped_delay : ℕ → ℕ
capped_delay n = min_of (backoff_min * 2 ^ n) backoff_max

doubled : (n : ℕ) → min_of (capped_delay n * 2) backoff_max ≡ capped_delay (suc n)
doubled n = ground arith

retry_after-delay_lem :
    (now : ℕ) (earlier : List ℕ)
    → (next_subscription_retry (retry_after earlier) now).delay ≡ capped_delay (length earlier)
unfolding next_subscription_retry
retry_after-delay_lem now [] = refl
retry_after-delay_lem now (t ∷ earlier) =
    rw (retry_after-delay_lem t earlier) (doubled (length earlier))

-- The backoff of the last of n + 1 consecutive failures is ten minutes times 2 ^ n, or an hour if that
-- is less; the next attempt is that long after the failure.
pub retry_after-delay :
    (now : ℕ) (earlier : List ℕ)
    → retry_after (now ∷ earlier)
      ≡ some (record {
        failed_at = now;
        delay = capped_delay (length earlier);
        next = now + capped_delay (length earlier);
      })
unfolding next_subscription_retry
retry_after-delay now [] = refl
retry_after-delay now (t ∷ earlier) =
    rw (retry_after-delay_lem t earlier, doubled (length earlier)) refl
