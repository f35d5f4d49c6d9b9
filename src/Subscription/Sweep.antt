-- ===== src/Subscription/Sweep.antt =====
-- The sweep over the subscriptions and the retries that it keeps
-- (daemon-go/cmd/iron-link-daemon/manager_subscriptions.go).
pub mod Live
use iron_link.Prelude.{
  ℕ, String, Bool, true, false, not, ◌&&◌, Option, none, some, List, [], ◌∷◌, ltb, if◌then◌else◌,
  lookup, insert, remove, has_key, delete_func,
}
use iron_link.Store.Profile.{Subscription}
use iron_link.Subscription.Schedule.{
  SubscriptionRetry, superseded_by, next_subscription_retry, subscription_due,
}

-- `subRetry`, by the ids of the subscriptions.
abbrev pub Retries : Type 0
Retries = List (String × SubscriptionRetry)

-- A later refresh by the user makes the record of a failure void.
unfoldable pub drop_superseded : ℕ → Retries → Subscription → Retries
drop_superseded now m s = elim (lookup s.id m) [
  | none ↦ m
  | some r ↦ if superseded_by r s now then remove s.id m else m
]

abbrev pub waits : ℕ → Option SubscriptionRetry → Bool
waits now none = false
waits now (some r) = ltb now r.next

unfoldable pub is_ready : ℕ → Retries → Subscription → Bool
is_ready now m s = subscription_due s now && not (waits now (lookup s.id m))

-- The loop over the subscriptions.
unfoldable pub due_from : ℕ → Retries → List Subscription → Retries × List Subscription
due_from now m [] = (m, [])
due_from now m (s ∷ ss) =
    let m1 = drop_superseded now m s in
    let (m2, due) = due_from now m1 ss in (m2, if is_ready now m1 s then s ∷ due else due)

-- The retries of the subscriptions that are gone are dropped.
unfoldable pub due_subscriptions : ℕ → Retries → List Subscription → Retries × List Subscription
due_subscriptions now m subs =
    let (m1, due) = due_from now m subs in
    (delete_func (λ e. not (has_key (λ s. s.id) subs e.0)) m1, due)

-- What a landed fetch leaves of the retries: `failed` is a fetch, parse or save error.
unfoldable pub land_retry : ℕ → Bool → String → Retries → Retries
land_retry now failed id m =
    if failed then insert id (next_subscription_retry (lookup id m) now) m else remove id m
