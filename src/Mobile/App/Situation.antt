-- ===== src/Mobile/App/Situation.antt =====
-- The invariant of the tracking button, and that recoveries keep it.
use mansariya.Base.{◌≡◌, refl, sym, ◌∙◌, subst, Bool, true, false, not, ◌&&◌, ◌||◌, arith}
use mansariya.Mobile.Identity.{Platform}
use mansariya.Mobile.App.{
  Phone, Outcome, Underway, nothing, starting, stopping, reading, Act, toggled, activated, launched,
  restarted, dropped, recover_if_tracking, launch,
}
use mansariya.Mobile.App.Agreement.{
  Agreement, told, recover_if_tracking-off, recover_if_tracking-screen, recovered-Agreement,
}

abbrev pub is_idle : Underway → Bool
is_idle nothing = true
is_idle _ = false

-- A start or a stop is under way.
abbrev pub is_busy : Underway → Bool
is_busy (starting meta r) = true
is_busy (stopping stop) = true
is_busy _ = false

-- What the store shows while something is under way.
abbrev pub fits : Underway → Bool → Bool
fits nothing shown = true
fits (starting meta r) shown = not shown
fits (stopping stop) shown = shown
fits (reading saved) shown = not shown

-- When what is under way has ended, the store agrees with the registered task, as far as the task was
-- left to the application; the dialog is shown without a run only; and the button is disabled exactly
-- while a start or a stop is under way.
pub record Inv (intact : Bool) (u : Underway) (s : Phone) : Type 0 where
  pub agrees : Agreement intact (told u s.store.is_tracking) s.tracker.registered
  pub shown : fits u s.store.is_tracking ≡ true
  pub asked : s.show_trip_modal && (s.store.is_tracking || not (is_idle u)) ≡ false
  pub enabled : s.is_toggling ≡ is_busy u

-- Whether the task is in the hands of the application: not after the system has dropped it or has ended
-- the process in a stop, and again from a launch or an activation on at which location updates would
-- start, when nothing else is under way.
abbrev pub intact_after : Outcome × Act → Underway → Bool → Bool
intact_after (o, dropped) u intact = false
intact_after (o, launched) nothing intact = intact || o.updates
intact_after (o, activated) nothing intact = intact || o.updates
intact_after (o, restarted) (stopping stop) intact = false
intact_after _ _ intact = intact

-- No recovery begins while a stop is under way, the process does not end while a start is under way,
-- and the button is not pressed before the store has read what it had written.
abbrev pub is_orderly : Act → Underway → Bool
is_orderly launched (stopping stop) = false
is_orderly activated (stopping stop) = false
is_orderly restarted (starting meta r) = false
is_orderly toggled (reading saved) = false
is_orderly _ _ = true

recovered-idle :
    (p : Platform) (o : Outcome) (intact : Bool) (s : Phone)
    → Inv intact nothing s
    → Inv (intact || o.updates) nothing (recover_if_tracking p o s)
recovered-idle p o intact s v =
    let (modal, toggling, _, less) = recover_if_tracking-screen p o s in
    record {
      agrees = recovered-Agreement p o s intact v.agrees;
      shown = refl;
      asked = ground (arith, v.asked, modal, less);
      enabled = toggling ∙ v.enabled;
    }

-- While the store shows no run, a recovery does nothing.
recovered-off :
    (p : Platform) (o : Outcome) (intact : Bool) (u : Underway) (s : Phone)
    → s.store.is_tracking ≡ false
    → Inv intact u s
    → Inv intact u (recover_if_tracking p o s)
recovered-off p o intact u s off v =
    subst (Inv intact u) (sym (recover_if_tracking-off p o s off)) v

module _ (p : Platform) (o : Outcome) (intact : Bool) where
  pub active-Inv :
      (u : Underway) (s : Phone)
      → is_orderly activated u ≡ true
      → Inv intact u s
      → Inv (intact_after (o, activated) u intact) u (recover_if_tracking p o s)
  active-Inv nothing s orderly v = recovered-idle p o intact s v
  active-Inv (starting meta r) s orderly v =
      recovered-off p o intact (starting meta r) s (ground (arith, v.shown)) v
  active-Inv (stopping stop) s orderly v = absurd cc
  active-Inv (reading saved) s orderly v =
      recovered-off p o intact (reading saved) s (ground (arith, v.shown)) v

  listening-Inv :
      (b : Bool) (u : Underway) (s : Phone)
      → Inv b u (recover_if_tracking p o s)
      → Inv b u (launch p o s)
  unfolding launch
  listening-Inv b u s v = record {
    agrees = v.agrees;
    shown = v.shown;
    asked = v.asked;
    enabled = v.enabled;
  }

  pub launch-Inv :
      (u : Underway) (s : Phone)
      → is_orderly launched u ≡ true
      → Inv intact u s
      → Inv (intact_after (o, launched) u intact) u (launch p o s)
  launch-Inv nothing s orderly v =
      listening-Inv (intact || o.updates) nothing s (active-Inv nothing s refl v)
  launch-Inv (starting meta r) s orderly v =
      listening-Inv intact (starting meta r) s (active-Inv (starting meta r) s refl v)
  launch-Inv (stopping stop) s orderly v = absurd cc
  launch-Inv (reading saved) s orderly v =
      listening-Inv intact (reading saved) s (active-Inv (reading saved) s refl v)

  pub recovery_underway :
      (s : Phone)
      → ((recover_if_tracking p o s).underway ≡ s.underway) × ((launch p o s).underway ≡ s.underway)
  unfolding launch
  recovery_underway s = let (_, _, e, _) = recover_if_tracking-screen p o s in (e, e)
