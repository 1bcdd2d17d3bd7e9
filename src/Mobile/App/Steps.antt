-- ===== src/Mobile/App/Steps.antt =====
-- The button, the dialog, the end of what waits and a new process keep the invariant.
use mansariya.Base.{
  ◌≡◌, refl, sym, subst, Bool, true, false, not, ◌&&◌, ◌||◌, arith, if◌then◌else◌, Bool-cases, inl,
  inr,
}
use mansariya.Mobile.Identity.{Platform}
use mansariya.Mobile.Tracker.{Tracker}
use mansariya.Mobile.Tracker.Session.{
  StartResult, already, refused, thrown, begun, start_begin, stop_begin,
}
use mansariya.Mobile.Tracker.Session.Laws.{stop_begin-registered, stop_rest-registered}
use mansariya.Mobile.Stores.TrackingStore
use mansariya.Mobile.Stores.TrackingStore.{TripMeta}
use mansariya.Mobile.App.{
  Phone, Outcome, Underway, nothing, starting, stopping, reading, toggled, restarted, restart,
  ended, handle_tracking_toggle, handle_start_with_meta, to_background, to_batch_meta,
}
use mansariya.Mobile.App.Agreement.{
  Agreement, told, same-Agreement, off-Agreement, start_begin-registered, after_begin-kept,
  to_background-registered,
}
use mansariya.Mobile.App.Situation.{Inv, is_orderly, intact_after}

module _ (p : Platform) (o : Outcome) (intact : Bool) where
  toggle-busy : (s : Phone) → s.is_toggling ≡ true → handle_tracking_toggle p o s ≡ s
  unfolding handle_tracking_toggle
  toggle-busy s h = ground (arith, h)

  pub toggle-stop :
      (s : Phone)
      → s.is_toggling ≡ false
      → s.store.is_tracking ≡ true
      → handle_tracking_toggle p o s ≡ record s {
        tracker = (stop_begin o.auth s.tracker).1;
        is_toggling = true;
        underway = stopping (stop_begin o.auth s.tracker).0;
      }
  unfolding handle_tracking_toggle
  toggle-stop s h on = ground (arith, h, on)

  toggle-ask :
      (s : Phone)
      → s.is_toggling ≡ false
      → s.store.is_tracking ≡ false
      → handle_tracking_toggle p o s ≡ record s { show_trip_modal = true }
  unfolding handle_tracking_toggle
  toggle-ask s h off = ground (arith, h, off)

  pub toggle-Inv :
      (u : Underway) (s : Phone)
      → s.underway ≡ u
      → is_orderly toggled u ≡ true
      → Inv intact u s
      → let t = handle_tracking_toggle p o s in Inv intact t.underway t
  toggle-Inv nothing s e orderly v = elim (Bool-cases s.store.is_tracking) [
    | inl on ↦
        subst (λ (t : Phone). Inv intact t.underway t) (sym (toggle-stop s v.enabled on))
          (record {
            agrees =
                same-Agreement intact false (stop_begin o.auth s.tracker).1.registered
                  (sym (stop_begin-registered o.auth s.tracker));
            shown = on;
            asked = ground (arith, v.asked, on);
            enabled = refl;
          })
    | inr off ↦
        subst (λ (t : Phone). Inv intact t.underway t) (sym (toggle-ask s v.enabled off))
          (subst (λ u. Inv intact u (record s { show_trip_modal = true })) (sym e)
            (record {
              agrees = v.agrees;
              shown = refl;
              asked = ground (arith, off);
              enabled = v.enabled;
            }))
  ]
  toggle-Inv (starting meta r) s e orderly v =
      subst (λ (t : Phone). Inv intact t.underway t) (sym (toggle-busy s v.enabled))
        (subst (λ u. Inv intact u s) (sym e) v)
  toggle-Inv (stopping stop) s e orderly v =
      subst (λ (t : Phone). Inv intact t.underway t) (sym (toggle-busy s v.enabled))
        (subst (λ u. Inv intact u s) (sym e) v)
  toggle-Inv (reading saved) s e orderly v = absurd cc

  confirmed-Inv :
      (meta : TripMeta) (s : Phone)
      → s.store.is_tracking ≡ false
      → let t = handle_start_with_meta p o meta s in Inv intact t.underway t
  unfolding handle_start_with_meta
  confirmed-Inv meta s off =
      let b =
        start_begin p (to_batch_meta meta) o.foreground o.background o.updates o.now s.tracker in
      record {
        agrees = same-Agreement intact _ _ (
            start_begin-registered p (to_batch_meta meta) o.foreground o.background o.updates o.now
              s.tracker);
        shown = ground (arith, off);
        asked = refl;
        enabled = refl;
      }

  pub sent_back-Inv :
      (u : Underway) (s : Phone) → Inv intact u s → Inv intact u (to_background p o s)
  unfolding to_background
  sent_back-Inv u s v = record {
    agrees =
        subst (Agreement intact (told u s.store.is_tracking)) (sym (to_background-registered p o s))
          v.agrees;
    shown = v.shown;
    asked = v.asked;
    enabled = v.enabled;
  }

  not_started-Inv :
      (s : Phone) (t : Tracker)
      → Agreement intact false t.registered
      → not s.store.is_tracking ≡ true
      → s.show_trip_modal && (s.store.is_tracking || true) ≡ false
      → Inv intact nothing (record s { tracker = t; is_toggling = false; underway = nothing })
  not_started-Inv s t a off asked = record {
    agrees =
        same-Agreement intact s.store.is_tracking t.registered
          (ground (arith, off, off-Agreement intact t.registered a));
    shown = refl;
    asked = ground (arith, asked, off);
    enabled = refl;
  }

  started-Inv :
      (r : StartResult) (meta : TripMeta) (s : Phone)
      → Inv intact (starting meta r) s
      → let t = ended p o (starting meta r) s in Inv intact t.underway t
  unfolding ended TrackingStore.start_tracking
  started-Inv already meta s v = record {
    agrees = v.agrees;
    shown = refl;
    asked = ground (arith, v.asked, v.shown);
    enabled = refl;
  }
  started-Inv begun meta s v = record {
    agrees = subst (Agreement intact true) (sym (after_begin-kept o begun s.tracker)) v.agrees;
    shown = refl;
    asked = ground (arith, v.asked, v.shown);
    enabled = refl;
  }
  started-Inv refused meta s v = not_started-Inv s s.tracker v.agrees v.shown v.asked
  started-Inv thrown meta s v = not_started-Inv s s.tracker v.agrees v.shown v.asked

  pub ended-Inv :
      (u : Underway) (s : Phone)
      → s.underway ≡ u
      → Inv intact u s
      → let t = ended p o u s in Inv intact t.underway t
  unfolding ended TrackingStore.stop_tracking
  ended-Inv nothing s e v = subst (λ u. Inv intact u s) (sym e) v
  ended-Inv (starting meta r) s e v = started-Inv r meta s v
  ended-Inv (stopping stop) s e v = record {
    agrees =
        subst (Agreement intact false)
          (sym (stop_rest-registered o.auth o.flush_answered o.stop_answered o.now stop s.tracker))
          v.agrees;
    shown = refl;
    asked = ground (arith, v.asked, v.shown);
    enabled = refl;
  }
  ended-Inv (reading saved) s e v = record {
    agrees = v.agrees;
    shown = refl;
    asked = ground (arith, v.asked);
    enabled = v.enabled;
  }

  pub restart-Inv :
      (u : Underway) (s : Phone)
      → s.underway ≡ u
      → is_orderly restarted u ≡ true
      → Inv intact u s
      → let t = restart s in Inv (intact_after (o, restarted) u intact) t.underway t
  unfolding restart
  restart-Inv nothing s e orderly v =
      rw e record { agrees = v.agrees; shown = refl; asked = refl; enabled = refl }
  restart-Inv (starting meta r) s e orderly v = absurd cc
  restart-Inv (stopping stop) s e orderly v =
      rw e record { agrees = ground (arith, v.shown); shown = refl; asked = refl; enabled = refl }
  restart-Inv (reading saved) s e orderly v =
      rw e record { agrees = v.agrees; shown = refl; asked = refl; enabled = refl }

  pub while_shown-Inv :
      (meta : TripMeta) (u : Underway) (s : Phone) (shown : Bool)
      → s.underway ≡ u
      → s.show_trip_modal ≡ shown
      → Inv intact u s
      → let t = (if shown then handle_start_with_meta p o meta s else s) in Inv intact t.underway t
  while_shown-Inv meta u s true e h v = confirmed-Inv meta s (ground (arith, h, v.asked))
  while_shown-Inv meta u s false e h v = subst (λ u. Inv intact u s) (sym e) v
