-- ===== src/Manager/Session/Reachable.antt =====
-- The states of the manager that its handlers lead to, in any order and with any answers of the cores
-- and the system.
use iron_link.Prelude.{
  ℕ, String, Bool, true, false, ◌||◌, ◌≡◌, ◌≢◌, refl, inl, inr, Option, none, some, Result-cases,
  Bool-cases,
}
use iron_link.Api.Request.{Request}
use iron_link.Store.Profile.{Profile}
use iron_link.Store.Files.{Os, Disk}
use iron_link.Store.Profiles.{load_last_session}
use iron_link.Store.Settings.{load_settings}
use iron_link.Manager.Prepare.{Env, Activation}
use iron_link.Manager.Prepare.Member.{IsPrepared}
use iron_link.Manager.Session.{Cores, Manager, new_manager, start_activation}
use iron_link.Manager.Session.Handlers.{
  stop, shutdown, reactivation, switch_node, broadcast_live_change, restores, restore_node,
  restore_last_session,
}
use iron_link.Manager.Session.Reconnect.{SessionReconnect, session_reconnect, reconnect_prepared}
use iron_link.Manager.Session.Coherent.{IsCoherent, start_activation-IsCoherent}
use iron_link.Manager.Prepare.Member.{prepared-is_member}
use iron_link.Manager.Session.Steps.{
  activate-IsCoherent, stop-IsCoherent, switch_node-IsCoherent, broadcast_live_change-IsCoherent,
}
use iron_link.Manager.Session.Relabel.{session_reconnect-IsCoherent, reconnect_prepared-IsCoherent}

-- What happens under the mutex; `shut` is the shutdown at the exit of the process. An activation is started as it was prepared, maybe long before;
-- `stored` is any change of the files by another verb.
pub data Action (Raw : Type 0) : Type 0 where
  started : Activation → Action Raw
  stopped : Request Raw → Action Raw
  switched : Option String → Request Raw → Action Raw
  ticked : ℕ → String → Action Raw
  refreshed : String → Profile → Action Raw
  reconnected : SessionReconnect Raw → Activation → Action Raw
  restored : Option String → Action Raw
  stored : Disk Raw → Action Raw
  shut : Action Raw

-- The call at the exit of the process.
abbrev pub is_shutdown : {Raw : Type 0} → Action Raw → Bool
is_shutdown shut = true
is_shutdown _ = false

module _ {Raw : Type 0} (env : Env Raw) where
  unfoldable pub act : Os → Cores → Action Raw → Manager Raw → Manager Raw
  act os cores (started prep) m = (start_activation env os cores prep m).0
  act os cores (stopped req) m = (stop env os cores req m).0
  act os cores (switched privilege req) m = (switch_node env os cores privilege req m).0
  act os cores (ticked s last) m = (broadcast_live_change env os cores s last m).0
  act os cores (refreshed name p) m = (session_reconnect env os cores name p m).0
  act os cores (reconnected rc prep) m = (reconnect_prepared env os cores rc prep m).0
  act os cores (restored privilege) m = restore_last_session env os cores privilege m
  act os cores (stored d) m = record m { disk = d }
  act os cores shut m = shutdown env os cores m

  abbrev pub Admissible : Action Raw → Type 0
  Admissible (started prep) = IsPrepared env prep
  Admissible (reconnected rc prep) = IsPrepared env prep
  Admissible _ = Unit {0}

  -- The states that are reached, with whether a shutdown is among the steps.
  pub data Reach : Bool → Manager Raw → Type 0 where
    fresh : (d : Disk Raw) {m : Manager Raw} → m ≡ new_manager d → Reach false m
    next :
        {down : Bool} {m m' : Manager Raw}
        → Reach down m
        → (os : Os) (cores : Cores) (a : Action Raw) → Admissible a
        → m' ≡ act os cores a m
        → Reach (down || is_shutdown a) m'

  restore_last_session-IsCoherent :
      (os : Os) (cores : Cores) (down : Bool) (privilege : Option String) (m : Manager Raw)
      → IsCoherent down m
      → IsCoherent down (restore_last_session env os cores privilege m)
  unfolding restore_last_session
  restore_last_session-IsCoherent os cores down privilege m v =
      elim (Bool-cases
        (restores env os cores (load_settings env.net env.codec env.host.goos os m.disk))) [
          | inr e ↦ rw (restore_last_session, e) v
          | inl e ↦ elim (Result-cases (load_last_session env.codec os m.disk)) [
            | inr (bad, f) ↦ rw (restore_last_session, e, f) v
            | inl (none, f) ↦ rw (restore_last_session, e, f) v
            | inl (some context, f) ↦
                rw (restore_last_session, e, f)
                  (activate-IsCoherent env os cores down privilege
                    (reactivation env os cores context (restore_node env os cores context m.disk)) m
                    v)
          ]
        ]

  -- A step that is no shutdown leaves the mark as it is.
  later : (down : Bool) {m : Manager Raw} → IsCoherent down m → IsCoherent (down || false) m
  later true v = v
  later false v = v

  stored-IsCoherent :
      (d : Disk Raw) (down : Bool) (m : Manager Raw)
      → IsCoherent down m
      → IsCoherent down (record m { disk = d })
  stored-IsCoherent d down m (inl v) = inl (record {
    sess = v.sess;
    cleared = v.cleared;
    emitter = v.emitter;
    opened = v.opened;
    in_order = v.in_order;
  })
  stored-IsCoherent d down m (inr (s, a, id, v)) = inr (
    s,
    a,
    id,
    record {
      sess = v.sess;
      active = v.active;
      node_id = v.node_id;
      node = v.node;
      profile = v.profile;
      member = v.member;
      emitter = v.emitter;
      opened = v.opened;
      in_order = v.in_order;
    },
  )

  shut_down : (down : Bool) → (down || true) ≢ false
  shut_down true h = cc
  shut_down false h = cc

  shutdown-IsCoherent :
      (os : Os) (cores : Cores) (down : Bool) (m : Manager Raw)
      → IsCoherent down m
      → IsCoherent (down || true) (shutdown env os cores m)
  unfolding shutdown
  shutdown-IsCoherent os cores down m (inl v) =
      rw (shutdown, v.sess)
        (inl (record {
          sess = v.sess;
          cleared = λ h. absurd (shut_down down h);
          emitter = v.emitter;
          opened = v.opened;
          in_order = v.in_order;
        }))
  shutdown-IsCoherent os cores down m (inr (s, a, id, v)) =
      rw (shutdown, v.sess)
        (inl (record {
          sess = refl;
          cleared = λ h. absurd (shut_down down h);
          emitter = refl;
          opened = refl;
          in_order = (v.opened, v.in_order);
        }))

  act-IsCoherent :
      (os : Os) (cores : Cores) (down : Bool) (a : Action Raw) (m : Manager Raw)
      → Admissible a
      → IsCoherent down m
      → IsCoherent (down || is_shutdown a) (act os cores a m)
  unfolding act
  act-IsCoherent os cores down (started prep) m made v =
      start_activation-IsCoherent env os cores (down || false) prep m
        (prepared-is_member env prep made) (later down v)
  act-IsCoherent os cores down (stopped req) m made v =
      stop-IsCoherent env os cores (down || false) req m (later down v)
  act-IsCoherent os cores down (switched privilege req) m made v =
      switch_node-IsCoherent env os cores (down || false) privilege req m (later down v)
  act-IsCoherent os cores down (ticked s last) m made v =
      broadcast_live_change-IsCoherent env os cores (down || false) s last m (later down v)
  act-IsCoherent os cores down (refreshed name p) m made v =
      session_reconnect-IsCoherent env os cores (down || false) name p m (later down v)
  act-IsCoherent os cores down (reconnected rc prep) m made v =
      reconnect_prepared-IsCoherent env os cores (down || false) rc prep m made (later down v)
  act-IsCoherent os cores down (restored privilege) m made v =
      restore_last_session-IsCoherent os cores (down || false) privilege m (later down v)
  act-IsCoherent os cores down (stored d) m made v =
      stored-IsCoherent d (down || false) m (later down v)
  act-IsCoherent os cores down shut m made v = shutdown-IsCoherent os cores down m v

  -- Whatever the handlers do, in whatever order, and whatever the cores and the system answer: either
  -- no session and no emitter is open and, unless a shutdown is among the steps, no context, routing or
  -- warning is left; or one session is open, its emitter is the one that runs, and its context names a
  -- profile and a node that is a member of the running plan. A session is started only when none is
  -- open, and only the open session is switched or closed. A shutdown, which the daemon makes when
  -- the process exits, leaves the context of the session that it closes. An activation that is
  -- started was prepared, at any time before.
  pub Reach-IsCoherent : {down : Bool} {m : Manager Raw} → Reach down m → IsCoherent down m
  Reach-IsCoherent (fresh d e) = rw e (
      inl (record {
        sess = refl;
        cleared = λ h. (refl, refl, refl);
        emitter = refl;
        opened = refl;
        in_order = tt;
      }))
  Reach-IsCoherent (next {down = down} r os cores a made e) =
      rw e (act-IsCoherent os cores down a _ made (Reach-IsCoherent r))
