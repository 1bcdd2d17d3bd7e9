-- ===== src/Mobile/App/Invariant.antt =====
-- The tracking button over whatever the user and the system do, and a race between a stop and a
-- recovery.
use mansariya.Base.{◌≡◌, refl, sym, ◌∙◌, subst, Bool, true, false, ◌&&◌, List, [], ◌∷◌, arith}
use mansariya.Mobile.Identity.{Platform}
use mansariya.Mobile.Tracker.Session.{Stopping, stop_begin}
use mansariya.Mobile.Tracker.Session.Laws.{stop_begin-registered, stop_rest-registered}
use mansariya.Mobile.Stores.TrackingStore
use mansariya.Mobile.App.{
  Phone, Outcome, nothing, stopping, Act, toggled, activated, settled, act, run, ended,
  recover_if_tracking,
}
use mansariya.Mobile.App.Agreement.{recover_if_tracking-begins, recover_if_tracking-screen}
use mansariya.Mobile.App.Situation.{Inv, is_orderly, intact_after}
use mansariya.Mobile.App.Steps.{toggle-stop}

module _ (p : Platform) where
  -- Every act is orderly where it comes.
  unfoldable pub all_orderly : List (Outcome × Act) → Phone → Bool
  all_orderly [] s = true
  all_orderly ((o, a) ∷ rest) s = is_orderly a s.underway && all_orderly rest (act p o a s)

  unfoldable pub is_intact : List (Outcome × Act) → Phone → Bool → Bool
  is_intact [] s intact = intact
  is_intact ((o, a) ∷ rest) s intact =
      is_intact rest (act p o a s) (intact_after (o, a) s.underway intact)

-- A phone that runs nothing, with any device and any history.
pub Inv-idle :
    (s : Phone)
    → s.store.is_tracking ≡ false
    → s.tracker.registered ≡ false
    → s.is_toggling ≡ false
    → Inv true nothing s
Inv-idle s off out on = record {
  agrees = off ∙ sym out;
  shown = refl;
  asked = ground (arith, off);
  enabled = on;
}

module _ (p : Platform) (o : Outcome) (s : Phone) where
  -- The end of a stop leaves the registration alone, and has the store show no run.
  settle-stop :
      (stop : Stopping)
      → s.underway ≡ stopping stop
      → let t = act p o settled s in
        (t.tracker.registered ≡ s.tracker.registered)
        × (t.store.is_tracking ≡ false)
        × (t.is_toggling ≡ false)
  unfolding act ended TrackingStore.stop_tracking
  settle-stop stop e = rw e (
    stop_rest-registered o.auth o.flush_answered o.stop_answered o.now stop s.tracker,
    refl,
    refl,
  )

-- Where the application becomes active while a stop waits for its answers, with the foreground
-- permission and location updates that start, the recovery starts the run again: when the stop has
-- ended, the task is registered, while the store shows no run and the button offers to start one.
pub stop-recovered :
    (p : Platform) (pressed active end : Outcome) (s : Phone)
    → s.is_toggling ≡ false
    → s.store.is_tracking ≡ true
    → active.foreground ≡ true
    → active.updates ≡ true
    → let t = run p ((pressed, toggled) ∷ (active, activated) ∷ (end, settled) ∷ []) s in
      (t.tracker.registered ≡ true) × (t.store.is_tracking ≡ false) × (t.is_toggling ≡ false)
unfolding run act
stop-recovered p pressed active end s idle on allowed starts =
    let stop = stop_begin pressed.auth s.tracker in
    let waiting : Phone = record s {
      tracker = stop.1;
      is_toggling = true;
      underway = stopping stop.0;
    } in
    let again = recover_if_tracking p active waiting in
    let (kept, off, free) =
      settle-stop p end again stop.0 (recover_if_tracking-screen p active waiting).2 in
    let gone = stop_begin-registered pressed.auth s.tracker in
    subst
      (λ (w : Phone).
        let t = act p end settled (recover_if_tracking p active w) in
        (t.tracker.registered ≡ true) × (t.store.is_tracking ≡ false) × (t.is_toggling ≡ false))
      (sym (toggle-stop p pressed true s idle on))
      (kept ∙ recover_if_tracking-begins p active waiting on gone allowed starts, off, free)
