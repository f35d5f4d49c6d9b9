-- ===== src/Ipc/Hub/Bounded.antt =====
-- What holds of a hub whatever the connections do.
use iron_link.Prelude.{
  ℕ, suc, ◌≤◌, ◌<◌, ◌≡◌, Bool, List, [], ◌∷◌, ◌++◌, arith, length, length-append, eqb, map,
  delete_func, All, Bool-cases, inl, inr,
}
use iron_link.Ipc.Hub.{
  buffer, Subscriber, Hub, new_hub, subscribe, cancel, offer, broadcast, receive,
}

module _ (Event : Type 0) where
  -- The queues are bounded, and the ids ascend below the next one: no two subscribers share an id.
  abbrev pub IsTidy : ℕ → List (Subscriber Event) → Type 0
  IsTidy next [] = Unit {0}
  IsTidy next (s ∷ rest) =
      (length s.queue ≤ buffer) × (s.id < next) × All (λ t. s.id < t.id) rest × IsTidy next rest

  -- The runs of a hub.
  pub data Reach : Hub Event → Type 0 where
    start : Reach (new_hub Event)
    on_subscribe : {h : Hub Event} → Reach h → Reach (subscribe Event h).0
    on_cancel : {h : Hub Event} → Reach h → (id : ℕ) → Reach (cancel Event id h)
    on_broadcast : {h : Hub Event} → Reach h → (ev : Event) → Reach (broadcast Event ev h)
    on_receive : {h : Hub Event} → Reach h → (id : ℕ) → Reach (receive Event id h)

  append-All :
      (id : ℕ) (ss : List (Subscriber Event)) (next : ℕ)
      → All (λ t. id < t.id) ss
      → id < next
      → All (λ t. id < t.id) (ss ++ record { id = next; queue = [] } ∷ [])
  append-All id [] next _ h = (h, tt)
  append-All id (s ∷ ss) next (a, r) h = (a, append-All id ss next r h)

  subscribe-IsTidy :
      (next : ℕ) (ss : List (Subscriber Event))
      → IsTidy next ss
      → IsTidy (suc next) (ss ++ record { id = next; queue = [] } ∷ [])
  subscribe-IsTidy next [] _ = (omega arith, omega arith, tt, tt)
  subscribe-IsTidy next (s ∷ ss) (q, i, a, r) =
      (q, omega (arith, i), append-All s.id ss next a i, subscribe-IsTidy next ss r)

  delete_func-All :
      (id : ℕ) (p : Subscriber Event → Bool) (ss : List (Subscriber Event))
      → All (λ t. id < t.id) ss
      → All (λ t. id < t.id) (delete_func p ss)
  delete_func-All id p [] _ = tt
  delete_func-All id p (s ∷ ss) (a, r) = elim (Bool-cases (p s)) [
    | inl e ↦ rw e (delete_func-All id p ss r)
    | inr e ↦ rw e (a, delete_func-All id p ss r)
  ]

  cancel-IsTidy :
      (next : ℕ) (p : Subscriber Event → Bool) (ss : List (Subscriber Event))
      → IsTidy next ss
      → IsTidy next (delete_func p ss)
  cancel-IsTidy next p [] _ = tt
  cancel-IsTidy next p (s ∷ ss) (q, i, a, r) = elim (Bool-cases (p s)) [
    | inl e ↦ rw e (cancel-IsTidy next p ss r)
    | inr e ↦ rw e (q, i, delete_func-All s.id p ss a, cancel-IsTidy next p ss r)
  ]

  map-All :
      (id : ℕ) (f : Subscriber Event → Subscriber Event) (ss : List (Subscriber Event))
      → ((s : Subscriber Event) → (f s).id ≡ s.id)
      → All (λ t. id < t.id) ss
      → All (λ t. id < t.id) (map f ss)
  map-All id f [] same _ = tt
  map-All id f (s ∷ ss) same (a, r) = (rw (same s) a, map-All id f ss same r)

  -- A write to each queue that keeps the ids and the bound.
  map-IsTidy :
      (next : ℕ) (f : Subscriber Event → Subscriber Event) (ss : List (Subscriber Event))
      → ((s : Subscriber Event) → (f s).id ≡ s.id)
      → ((s : Subscriber Event) → length s.queue ≤ buffer → length (f s).queue ≤ buffer)
      → IsTidy next ss
      → IsTidy next (map f ss)
  map-IsTidy next f [] same fits _ = tt
  map-IsTidy next f (s ∷ ss) same fits (q, i, a, r) = (
    fits s q,
    rw (same s) i,
    rw (same s) (map-All s.id f ss same a),
    map-IsTidy next f ss same fits r,
  )

  -- Whatever the connections do, no queue outgrows its buffer, ids are below the next one, and no two
  -- subscribers share an id: a broadcast drops an event rather than wait, and a cancel closes one
  -- channel only.
  pub Reach-IsTidy : {h : Hub Event} → Reach h → IsTidy h.next h.subs
  unfolding subscribe cancel broadcast receive offer
  Reach-IsTidy start = tt
  Reach-IsTidy (on_subscribe {h} r) = subscribe-IsTidy h.next h.subs (Reach-IsTidy r)
  Reach-IsTidy (on_cancel {h} r id) =
      cancel-IsTidy h.next (λ s. eqb s.id id) h.subs (Reach-IsTidy r)
  Reach-IsTidy (on_broadcast {h} r ev) =
      map-IsTidy h.next (offer Event ev) h.subs (λ s. ground arith)
        (λ s q. ground (arith, length-append s.queue (ev ∷ []))) (Reach-IsTidy r)
  Reach-IsTidy (on_receive {h} r id) =
      map-IsTidy h.next _ h.subs (λ s. ground arith) (λ s q. ground arith) (Reach-IsTidy r)
