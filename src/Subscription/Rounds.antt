-- ===== src/Subscription/Rounds.antt =====
-- `Refresh` of daemon-go/internal/subscription/subscription.go: each subscription fetched and applied
-- in its turn, on the one profile. The fetch and the clock are arguments, by the round.
use iron_link.Prelude.{
  ℕ, zero, suc, ◌+◌, String, true, false, not, ◌==◌, ◌||◌, Option, none, some, List, [], ◌∷◌, ◌++◌,
  length, if◌then◌else◌, Result, Bool, Option-cases, inl, inr,
}
use iron_link.Store.Profile.{Profile, Subscription}
use iron_link.Subscription.Refresh.{Outcome, FetchResult, Refreshed, apply_fetch}

pub record Fetching : Type 0 where
  pub from_name : String → String
  pub parse : String → String → String → Result String Outcome
  pub fetch : ℕ → Subscription → FetchResult
  pub clock : ℕ → ℕ

nth : List Subscription → ℕ → Option Subscription
nth [] i = none
nth (s ∷ ss) zero = some s
nth (s ∷ ss) (suc i) = nth ss i

-- The result of a disabled subscription that a sweep passes over.
abbrev skipped : Subscription → Refreshed
skipped sub = record {
  sub_id = sub.id;
  name = sub.name;
  count = 0;
  added = 0;
  removed = 0;
  skipped = true;
  discarded = false;
  error = "";
  format = "";
  entries = 0;
  duplicates = 0;
  unrecognized = 0;
}

module _ (f : Fetching) (only : String) where
  abbrev applied : ℕ → Subscription → Profile → Profile × List Refreshed
  applied i sub p =
      let (p', res) = apply_fetch f.from_name f.parse (f.clock i) p (f.fetch i sub) in
      (p', res ∷ [])

  -- One round of the loop.
  unfoldable pub refresh_one : ℕ → Subscription → Profile → Profile × List Refreshed
  refresh_one i sub p =
      if not (only == "")
      then (if sub.id == only || sub.name == only then applied i sub p else (p, []))
      else if sub.enabled
      then applied i sub p
      else (p, skipped sub ∷ [])

  -- The rounds that are left, from the index `i` on.
  unfoldable pub refresh_from : ℕ → ℕ → Profile → Profile × List Refreshed
  unfolding nth refresh_one
  refresh_from zero i p = (p, [])
  refresh_from (suc left) i p = elim (nth p.subscriptions i) [
    | none ↦ (p, [])
    | some sub ↦
        let (p1, now) = refresh_one i sub p in
        let (p2, later) = refresh_from left (i + 1) p1 in (p2, now ++ later)
  ]

  unfoldable pub refresh : Profile → Profile × List Refreshed
  unfolding refresh_from
  refresh p = refresh_from (length p.subscriptions) 0 p

  -- What every `Apply` keeps, the refresh keeps.
  module _ (P : Profile → Type 0)
      (keeps : (now : ℕ) (p : Profile) (fr : FetchResult)
        → P p
        → P (apply_fetch f.from_name f.parse now p fr).0) where
    branch-kept :
        (b : Bool) (x y : Profile × List Refreshed) → P x.0 → P y.0 → P (if b then x else y).0
    branch-kept true x y h k = h
    branch-kept false x y h k = k

    refresh_one-kept : (i : ℕ) (sub : Subscription) (p : Profile) → P p → P (refresh_one i sub p).0
    unfolding refresh_one
    refresh_one-kept i sub p h =
        let done = applied i sub p in
        let kept : P done.0 = keeps (f.clock i) p (f.fetch i sub) h in
        branch-kept (not (only == "")) _ _
          (branch-kept (sub.id == only || sub.name == only) done (p, []) kept h)
          (branch-kept sub.enabled done (p, skipped sub ∷ []) kept h)

    refresh_from-kept : (left i : ℕ) (p : Profile) → P p → P (refresh_from left i p).0
    unfolding refresh_from
    refresh_from-kept zero i p h = h
    refresh_from-kept (suc left) i p h = elim (Option-cases (nth p.subscriptions i)) [
      | inl e ↦ rw (refresh_from, e) h
      | inr (sub, e) ↦
          rw (refresh_from, e)
            (refresh_from-kept left (i + 1) (refresh_one i sub p).0 (refresh_one-kept i sub p h))
    ]

    pub refresh-kept : (p : Profile) → P p → P (refresh p).0
    unfolding refresh
    refresh-kept p h = refresh_from-kept (length p.subscriptions) 0 p h
