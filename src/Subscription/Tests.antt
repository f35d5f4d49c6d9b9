-- ===== src/Subscription/Tests.antt =====
-- A refresh that brings the active node back under a new id, and the schedule.
use iron_link.Prelude.{
  has_key, ℕ, ◌+◌, String, ◌≡◌, ◌⊎◌, refl, true, none, some, [], ◌∷◌, Result, ok, err, length,
}
use iron_link.Proxy.Profile.{
  trojan, kind, identity, server_address, server_port, transport_label, security_label,
}
use iron_link.Store.Profile.{Profile, Node, Subscription, new_profile, new_subscription}
use iron_link.Store.Mutators.{add_subscription, add_node, set_active_node_if_unset}
use iron_link.Store.Invariant.{IsValid, Mutation, Reach, apply, Reach-IsValid}
use iron_link.Subscription.Keys.{node_key, profile_key}
use iron_link.Subscription.Refresh.{Outcome, FetchResult, apply_fetch}
use iron_link.Subscription.Refresh.Kept.{apply_fetch-active, apply_fetch-nodes, IsReplaced}
use iron_link.Subscription.Refresh.Valid.{apply_fetch-IsValid}
use iron_link.Subscription.Sweep.{Retries, land_retry, due_subscriptions}
use iron_link.Subscription.Sweep.Live.{due_subscriptions-Live}
use iron_link.Subscription.Sweep.Live
use iron_link.Subscription.Schedule.{
  next_subscription_retry, subscription_due, retry_after, capped_delay, retry_after-delay,
}

abbrev a_sub : Subscription
a_sub = new_subscription "https://a.example" "a" "s1" 0

abbrev a_node : String → Node
a_node id = record {
  id = id;
  sub_id = some "s1";
  doc = some (
      trojan (record {
        server_name = id;
        address = "192.0.2.1";
        port = 443;
        password = "secret";
        security = record { kind = "tls"; tls = none; reality = none };
        transport = record { kind = "tcp"; ws = none; grpc = none; xhttp = none };
      }));
  group = none;
  preferences = record { core_override = none };
}

abbrev a_profile : Profile
a_profile =
    apply (Mutation.put_node (a_node "old"))
      (apply (Mutation.put_sub a_sub) (new_profile "home" "r1"))

a_profile-IsValid : IsValid a_profile
a_profile-IsValid = Reach-IsValid (
    Reach.next (Reach.next (Reach.create "home" "r1" refl) (Mutation.put_sub a_sub) tt refl)
      (Mutation.put_node (a_node "old")) tt refl)

abbrev an_outcome : Outcome
an_outcome = record {
  format = "links";
  nodes = a_node "fresh" ∷ [];
  groups = [];
  entries = 1;
  duplicates = 0;
  unrecognized = 0;
}

abbrev one_dialect : String → String → String → Result String Outcome
one_dialect body sub_id format = ok an_outcome

abbrev a_fetch : Result String String → FetchResult
a_fetch body = record {
  sub_id = "s1";
  name = "a";
  url = "https://a.example";
  format = "auto";
  body = body;
}

apply_fetch-active_example :
    (apply_fetch (λ s. s) one_dialect 9 a_profile (a_fetch (ok "body"))).0.active_node_id
    ≡ some "old"
unfolding apply new_profile new_subscription add_subscription add_node set_active_node_if_unset
    node_key profile_key kind identity server_address server_port transport_label security_label
apply_fetch-active_example =
    apply_fetch-active (λ s. s) one_dialect 9 a_profile (a_fetch (ok "body")) "body" an_outcome []
      [] (a_node "fresh") (a_node "old") refl refl refl refl refl

apply_fetch-nodes_example :
    ((apply_fetch (λ s. s) one_dialect 9 a_profile (a_fetch (err "timeout"))).0.nodes
      ≡ a_profile.nodes)
    ⊎ IsReplaced (λ s. s) one_dialect 9 a_profile (a_fetch (err "timeout"))
apply_fetch-nodes_example =
    apply_fetch-nodes (λ s. s) one_dialect 9 a_profile (a_fetch (err "timeout"))

apply_fetch-IsValid_example :
    IsValid (apply_fetch (λ s. s) one_dialect 9 a_profile (a_fetch (ok "body"))).0
apply_fetch-IsValid_example =
    apply_fetch-IsValid (λ s. s) one_dialect 9 a_profile (a_fetch (ok "body")) a_profile-IsValid

retry_after-delay_example :
    retry_after (900 ∷ 800 ∷ 700 ∷ [])
    ≡ some (record {
      failed_at = 900;
      delay = capped_delay (length {A = ℕ} (800 ∷ 700 ∷ []));
      next = 900 + capped_delay (length {A = ℕ} (800 ∷ 700 ∷ []));
    })
retry_after-delay_example = retry_after-delay 900 (800 ∷ 700 ∷ [])

abbrev failed_once : Retries
failed_once = land_retry 100 true "s1" []

due_subscriptions-Live_example :
    has_key (λ t. t.id) (due_subscriptions 40000000000000 failed_once (a_sub ∷ [])).1 "s1" ≡ true
unfolding land_retry next_subscription_retry subscription_due new_subscription
due_subscriptions-Live_example =
    due_subscriptions-Live 40000000000000 failed_once [] [] a_sub
      (Live.Reach.landed Live.Reach.start 100 true "s1") refl refl
