-- ===== src/Ipc/Hub.antt =====
-- The event hub (daemon-go/internal/ipc/hub.go): a channel is its buffer, and the map of the
-- subscribers a list in the order of their ids. The mutex makes each operation one step.
pub mod Bounded
use iron_link.Prelude.{
  ℕ, suc, ◌+◌, Bool, true, false, not, Option, none, some, List, [], ◌∷◌, ◌++◌, map, length, ltb,
  eqb, if◌then◌else◌, find, delete_func,
}

abbrev pub buffer : ℕ
buffer = 64

module _ (Event : Type 0) where
  pub record Subscriber : Type 0 where
    pub id : ℕ
    pub queue : List Event

  pub record Hub : Type 0 where
    pub subs : List Subscriber
    pub next : ℕ

  -- `NewHub`
  abbrev pub new_hub : Hub
  new_hub = record { subs = []; next = 0 }

  -- The hub with the new subscriber, and its id.
  unfoldable pub subscribe : Hub → Hub × ℕ
  subscribe h = (
    record { subs = h.subs ++ record { id = h.next; queue = [] } ∷ []; next = suc h.next },
    h.next,
  )

  -- The function that `subscribe` returns; a second call finds nothing.
  unfoldable pub cancel : ℕ → Hub → Hub
  cancel id h = record h { subs = delete_func (λ s. eqb s.id id) h.subs }

  -- The `select` with a default: a full buffer drops the event.
  unfoldable pub offer : Event → Subscriber → Subscriber
  offer ev s = if ltb (length s.queue) buffer then record s { queue = s.queue ++ ev ∷ [] } else s

  unfoldable pub broadcast : Event → Hub → Hub
  broadcast ev h = record h { subs = map (offer ev) h.subs }

  unfoldable pub subscriber_count : Hub → ℕ
  subscriber_count h = length h.subs

  -- The connection of a subscriber takes the first event of its channel.
  abbrev drop_first : ℕ → Subscriber → Subscriber
  drop_first id s =
      let taken : List Event = elim s.queue [ [] ↦ [] | ev ∷ rest ↦ rest ] in
      if eqb s.id id then record s { queue = taken } else s

  unfoldable pub receive : ℕ → Hub → Hub
  receive id h = record h { subs = map (drop_first id) h.subs }
