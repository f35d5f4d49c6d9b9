-- ===== src/Manager/Session/Coherent.antt =====
-- What holds of the manager whatever its handlers do, in whatever order.
use iron_link.Prelude.{
  ℕ, String, Bool, true, false, ◌≡◌, refl, ◌⊎◌, inl, inr, Option, none, some, is_some, List, [],
  ◌∷◌, Result-cases, Option-cases,
}
use iron_link.Api.Reply.{PersistedEntry}
use iron_link.Store.Files.{Os}
use iron_link.Engine.Plan.{is_member}
use iron_link.Manager.Prepare.{Env, Activation}
use iron_link.Manager.Session.{
  Cores, CoreCall, started, closed, selected, Manager, context_of, broadcast_state, save_last,
  close_session, run_session, start_session, start_activation,
}

-- The session that is open after the calls, the latest first.
abbrev pub open_of : List CoreCall → Option ℕ
open_of [] = none
open_of (started s ∷ calls) = some s
open_of (closed s ∷ calls) = none
open_of (selected s tag ∷ calls) = open_of calls

-- A session starts only when none is open, and only the open one is switched or closed.
abbrev pub InOrder : List CoreCall → Type 0
InOrder [] = Unit
InOrder (started s ∷ calls) = (open_of calls ≡ none) × InOrder calls
InOrder (closed s ∷ calls) = (open_of calls ≡ some s) × InOrder calls
InOrder (selected s tag ∷ calls) = (open_of calls ≡ some s) × InOrder calls

-- Nothing of a session is left.
abbrev pub IsCleared : {Raw : Type 0} → Manager Raw → Type 0
IsCleared m = (m.active ≡ none) × (m.routing ≡ none) × (m.routing_warnings ≡ [])

-- No session is open; after a shutdown, `down`, the context of the last one may be left.
pub record IsIdle {Raw : Type 0} (down : Bool) (m : Manager Raw) : Type 0 where
  pub sess : m.sess ≡ none
  pub cleared : down ≡ false → IsCleared m
  pub emitter : m.stop_traffic ≡ none
  pub opened : open_of m.calls ≡ none
  pub in_order : InOrder m.calls

-- The session `s` runs in the context `a`, whose node is the member `id` of the plan.
pub record IsRunning {Raw : Type 0} (m : Manager Raw) (s : ℕ) (a : PersistedEntry) (id : String)
    : Type 0 where
  pub sess : m.sess ≡ some s
  pub active : m.active ≡ some a
  pub node_id : a.node_id ≡ some id
  pub node : is_some a.node ≡ true
  pub profile : is_some a.profile ≡ true
  pub member : is_member m.plan id ≡ true
  pub emitter : m.stop_traffic ≡ some s
  pub opened : open_of m.calls ≡ some s
  pub in_order : InOrder m.calls

abbrev pub IsCoherent : {Raw : Type 0} → Bool → Manager Raw → Type 0
IsCoherent down m =
    IsIdle down m ⊎ ((s : ℕ) × (a : PersistedEntry) × (id : String) × IsRunning m s a id)

module _ {Raw : Type 0} (env : Env Raw) (os : Os) (cores : Cores) (down : Bool) where
  pub close_session-IsIdle :
      (m : Manager Raw) (s : ℕ) (a : PersistedEntry) (id : String)
      → IsRunning m s a id
      → IsIdle down (close_session s m)
  unfolding close_session
  close_session-IsIdle m s a id v = record {
    sess = refl;
    cleared = λ h. (refl, refl, refl);
    emitter = refl;
    opened = refl;
    in_order = (v.opened, v.in_order);
  }

  pub broadcast_state-IsIdle :
      (m : Manager Raw) → IsIdle down m → IsIdle down (broadcast_state cores m)
  unfolding broadcast_state
  broadcast_state-IsIdle m v = record {
    sess = v.sess;
    cleared = v.cleared;
    emitter = v.emitter;
    opened = v.opened;
    in_order = v.in_order;
  }

  start_session-IsCoherent :
      (prep : Activation) (m : Manager Raw)
      → is_member prep.plan prep.node_id ≡ true
      → IsIdle down m
      → IsCoherent down (start_session env os cores prep m).0
  unfolding start_session run_session save_last broadcast_state
  start_session-IsCoherent prep m member v = elim (Result-cases (cores.start prep.configs)) [
    | inr (e, h) ↦ inl (rw (h, start_session) (broadcast_state-IsIdle m v))
    | inl (s, h) ↦ inr (
      s,
      context_of prep,
      prep.node_id,
      rw (h, start_session)
          (record {
            sess = refl;
            active = refl;
            node_id = refl;
            node = refl;
            profile = refl;
            member = member;
            emitter = refl;
            opened = refl;
            in_order = (refl, (v.opened, v.in_order));
          }),
    )
  ]

  pub start_activation-IsCoherent :
      (prep : Activation) (m : Manager Raw)
      → is_member prep.plan prep.node_id ≡ true
      → IsCoherent down m
      → IsCoherent down (start_activation env os cores prep m).0
  unfolding start_activation
  start_activation-IsCoherent prep m member (inl v) =
      rw (v.sess, start_activation) (start_session-IsCoherent prep m member v)
  start_activation-IsCoherent prep m member (inr (s, a, id, v)) =
      let left = close_session-IsIdle m s a id v in
      elim (Option-cases (cores.close s)) [
        | inl e ↦
            rw (v.sess, start_activation, e)
              (start_session-IsCoherent prep (close_session s m) member left)
        | inr (bad, e) ↦ rw (v.sess, start_activation, e) (inl left)
      ]
