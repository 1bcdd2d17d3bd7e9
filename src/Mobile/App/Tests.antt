-- ===== src/Mobile/App/Tests.antt =====
-- Tests and examples of mobile/src/App.tsx: a run from the dialog to the stop.
use mansariya.Base.{◌≡◌, refl, true, false, none, some, List, [], ◌∷◌}
use mansariya.Mobile.Tracker.Tests.{platform, idle_tracker, colombo}
use mansariya.Mobile.Stores.TrackingStore
use mansariya.Mobile.Stores.TrackingStore.{TripMeta, initial}
use mansariya.Mobile.App.{
  Phone, Outcome, Act, nothing, toggled, confirmed, sent_back, activated, launched, restarted,
  dropped, settled, run,
}
use mansariya.Mobile.App.Invariant.{stop-recovered}

abbrev good : Outcome
good = record {
  auth = none;
  foreground = true;
  background = false;
  updates = true;
  first_position = some colombo;
  first_answer = true;
  flush_answered = true;
  stop_answered = false;
  now = 70;
}

abbrev idle : Phone
idle = record {
  tracker = idle_tracker;
  store = initial;
  show_trip_modal = false;
  is_toggling = false;
  underway = nothing;
}

abbrev trip : TripMeta
trip = record { route_id = some "138"; bus_number = none; crowd_level = some 2 }

-- A run during which the process ends, the system drops the task, and a first attempt to go on fails.
abbrev acts : List (Outcome × Act)
acts =
    (good, toggled)
    ∷ (good, confirmed trip)
    ∷ (good, sent_back)
    ∷ (good, settled)
    ∷ (good, restarted)
    ∷ (good, dropped)
    ∷ (record good { updates = false }, launched)
    ∷ (good, settled)
    ∷ (good, activated)
    ∷ (good, toggled)
    ∷ (good, settled)
    ∷ []

abbrev riding : Phone
riding = record idle { store = TrackingStore.start_tracking trip 60 initial }

stop-recovered_example :
    let t = run platform ((good, toggled) ∷ (good, activated) ∷ (good, settled) ∷ []) riding in
    (t.tracker.registered ≡ true) × (t.store.is_tracking ≡ false) × (t.is_toggling ≡ false)
unfolding TrackingStore.start_tracking
stop-recovered_example = stop-recovered platform good good good riding refl refl refl refl
