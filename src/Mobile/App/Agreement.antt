-- ===== src/Mobile/App/Agreement.antt =====
-- The button shows what the tracker does.
use mansariya.Base.{
  Bool-cases, Option-cases, inl, inr, ℕ, ◌≡◌, ◌≢◌, refl, sym, subst, ◌∙◌, String, Bool, true, false,
  not, ◌||◌, Option, none, some, arith,
}
use mansariya.Mobile.Api.{BatchMeta, started}
use mansariya.Mobile.Identity.{Platform}
use mansariya.Mobile.Tracker.{
  LocationObject, Tracker, Sending, ensure_session_loaded, send_end, force_flush,
}
use mansariya.Mobile.Tracker.Session.{
  StartResult, already, refused, thrown, begun, start_begin, start_position, start_answer, resume,
  create_session, recover_tracking,
}
use mansariya.Mobile.Tracker.Session.Laws.{
  ensure-registered, send_begin-registered, flush_begin-registered, flush_answer-registered,
}
use mansariya.Mobile.Stores.TrackingStore
use mansariya.Mobile.Stores.TrackingStore.{TripMeta}
use mansariya.Mobile.App.{
  Phone, Outcome, to_batch_meta, first_ping, after_begin, to_value, recover, recover_if_tracking,
  to_background, Underway, nothing, starting, stopping, reading,
}

-- `if (started)`: the value of the promise is `true`.
abbrev pub is_true : Option Bool → Bool
is_true none = false
is_true (some b) = b

-- What the store shows, or will show when what is under way has ended, given what it shows now.
abbrev pub told : Underway → Bool → Bool
told nothing now = now
told (starting meta r) now = is_true (to_value r)
told (stopping stop) now = false
told (reading saved) now = saved.is_tracking

-- The store agrees with the registration of the task where the task was left to the application; else
-- a registered task is at least one that the store shows.
abbrev pub Agreement : Bool → Bool → Bool → Type 0
Agreement true shown registered = shown ≡ registered
Agreement false shown registered = (not registered || shown) ≡ true

pub same-Agreement :
    (intact : Bool) (shown registered : Bool)
    → shown ≡ registered
    → Agreement intact shown registered
same-Agreement true shown registered e = e
same-Agreement false shown registered e = ground (arith, e)

-- Where nothing is shown, nothing is registered.
pub off-Agreement :
    (intact : Bool) (registered : Bool) → Agreement intact false registered → registered ≡ false
off-Agreement true registered a = sym a
off-Agreement false registered a = ground (arith, a)

send_end-registered : (s : Sending) (t : Tracker) → (send_end s t).registered ≡ t.registered
unfolding send_end
send_end-registered s t = ground arith

start_answer-registered :
    (s : Sending) (ok : Bool) (now : ℕ) (t : Tracker)
    → (start_answer s ok now t).registered ≡ t.registered
unfolding start_answer
start_answer-registered s ok now t = ground (arith, send_end-registered s t)

start_position-registered :
    (auth : Option String) (loc : LocationObject) (t : Tracker)
    → (start_position auth loc t).1.registered ≡ t.registered
unfolding start_position
start_position-registered auth loc t = send_begin-registered auth started _ _

first_ping-registered : (o : Outcome) (t : Tracker) → (first_ping o t).registered ≡ t.registered
unfolding first_ping
first_ping-registered o t = elim (Option-cases o.first_position) [
  | inl e ↦ rw (e, first_ping) refl
  | inr (loc, e) ↦
      let b = start_position o.auth loc t in
      rw (e, first_ping)
        (start_answer-registered b.0 o.first_answer o.now b.1
          ∙ start_position-registered o.auth loc t)
]

resume-registered :
    (p : Platform) (now : ℕ) (t : Tracker) → (resume p now t).registered ≡ t.registered
unfolding resume create_session
resume-registered p now t = ground (arith, ensure-registered t)

pub start_begin-registered :
    (p : Platform) (meta : BatchMeta) (foreground background updates : Bool) (now : ℕ) (t : Tracker)
    → let b = start_begin p meta foreground background updates now t in
      is_true (to_value b.0) ≡ b.1.registered
unfolding start_begin create_session
start_begin-registered p meta foreground background updates now t =
    ground (arith, resume-registered p now t)

recover_tracking-registered :
    (p : Platform) (meta : BatchMeta) (foreground background updates : Bool) (now : ℕ) (t : Tracker)
    → let b = recover_tracking p meta foreground background updates now t in
      is_true (to_value b.0) ≡ b.1.registered
unfolding recover_tracking
recover_tracking-registered p meta foreground background updates now t = ground (
  arith,
  resume-registered p now t,
  start_begin-registered p meta foreground background updates now t,
)

after_begin-registered :
    (o : Outcome) (r : StartResult) (t : Tracker)
    → is_true (to_value r) ≡ t.registered
    → is_true (to_value (after_begin o (r, t)).0) ≡ (after_begin o (r, t)).1.registered
unfolding after_begin
after_begin-registered o already t h = h
after_begin-registered o refused t h = h
after_begin-registered o thrown t h = h
after_begin-registered o begun t h = h ∙ sym (first_ping-registered o t)

module _ (p : Platform) (o : Outcome) (meta : BatchMeta) (t : Tracker) where
  pub recover-registered : is_true (recover p o meta t).0 ≡ (recover p o meta t).1.registered
  unfolding recover
  recover-registered =
      let b = recover_tracking p meta o.foreground o.background o.updates o.now t in
      after_begin-registered o b.0 b.1
        (recover_tracking-registered p meta o.foreground o.background o.updates o.now t)

  recover-running : t.registered ≡ true → (recover p o meta t).0 ≡ some true
  unfolding recover recover_tracking after_begin
  recover-running h = ground (arith, h)

  recover-begins :
      t.registered ≡ false
      → o.foreground ≡ true
      → o.updates ≡ true
      → (recover p o meta t).0 ≡ some true
  unfolding recover recover_tracking start_begin after_begin
  recover-begins gone allowed starts = ground (arith, gone, allowed, starts)

  -- A promise that gives a value is a start that was not cut by an exception.
  recover-returns : o.updates ≡ true → (recover p o meta t).0 ≢ none
  unfolding recover recover_tracking start_begin after_begin
  recover-returns h = ground (arith)

force_flush-registered :
    (auth : Option String) (t : Tracker) → (force_flush auth t).1.registered ≡ t.registered
unfolding force_flush
force_flush-registered auth t =
    ground (arith, ensure-registered t, flush_begin-registered auth (ensure_session_loaded t).1)

pub after_begin-kept :
    (o : Outcome) (r : StartResult) (t : Tracker)
    → (after_begin o (r, t)).1.registered ≡ t.registered
unfolding after_begin
after_begin-kept o already t = refl
after_begin-kept o refused t = refl
after_begin-kept o thrown t = refl
after_begin-kept o begun t = first_ping-registered o t

module _ (p : Platform) (o : Outcome) (s : Phone) where
  pub recover_if_tracking-off : s.store.is_tracking ≡ false → recover_if_tracking p o s ≡ s
  unfolding recover_if_tracking
  recover_if_tracking-off off = ground (arith, off)

  -- A recovery changes neither the screen nor what is under way.
  pub recover_if_tracking-screen :
      let u = recover_if_tracking p o s in
      (u.show_trip_modal ≡ s.show_trip_modal)
      × (u.is_toggling ≡ s.is_toggling)
      × (u.underway ≡ s.underway)
      × ((not u.store.is_tracking || s.store.is_tracking) ≡ true)
  unfolding recover_if_tracking TrackingStore.stop_tracking
  recover_if_tracking-screen = (ground arith, ground arith, ground arith, ground arith)

  -- Where the store says that a run is on, a recovery whose location updates start, or are not asked
  -- for, ends with the store and the registered task in agreement, also where the system has dropped
  -- the task.
  recover-starts :
      o.updates ≡ true
      → s.store.is_tracking ≡ true
      → let u = recover_if_tracking p o s in u.store.is_tracking ≡ u.tracker.registered
  unfolding recover_if_tracking TrackingStore.stop_tracking
  recover-starts h on = ground (
    arith,
    recover-returns p o (to_batch_meta s.store.trip_meta) s.tracker h,
    recover-registered p o (to_batch_meta s.store.trip_meta) s.tracker,
  )

  recover-runs :
      s.tracker.registered ≡ true
      → s.store.is_tracking ≡ true
      → let u = recover_if_tracking p o s in u.store.is_tracking ≡ u.tracker.registered
  unfolding recover_if_tracking
  recover-runs running on = ground (
    arith,
    on,
    recover-running p o (to_batch_meta s.store.trip_meta) s.tracker running,
    recover-registered p o (to_batch_meta s.store.trip_meta) s.tracker,
  )

  -- A registered task that is not shown never comes from a recovery.
  recover-shows :
      s.store.is_tracking ≡ true
      → let u = recover_if_tracking p o s in
        (not u.tracker.registered || u.store.is_tracking) ≡ true
  unfolding recover_if_tracking TrackingStore.stop_tracking
  recover-shows on =
      ground (arith, recover-registered p o (to_batch_meta s.store.trip_meta) s.tracker)

  recover_on-Agreement :
      (intact updates : Bool)
      → o.updates ≡ updates
      → s.store.is_tracking ≡ true
      → Agreement intact true s.tracker.registered
      → let u = recover_if_tracking p o s in
        Agreement (intact || updates) u.store.is_tracking u.tracker.registered
  recover_on-Agreement true b h on a = recover-runs (sym a) on
  recover_on-Agreement false true h on a = recover-starts h on
  recover_on-Agreement false false h on a = recover-shows on

  -- Where no task is registered and a start would succeed, a recovery starts the run again.
  pub recover_if_tracking-begins :
      s.store.is_tracking ≡ true
      → s.tracker.registered ≡ false
      → o.foreground ≡ true
      → o.updates ≡ true
      → (recover_if_tracking p o s).tracker.registered ≡ true
  unfolding recover_if_tracking
  recover_if_tracking-begins on gone allowed starts =
      let m = to_batch_meta s.store.trip_meta in
      ground (
        arith,
        on,
        recover-registered p o m s.tracker,
        recover-begins p o m s.tracker gone allowed starts,
      )

  pub recovered-Agreement :
      (intact : Bool)
      → Agreement intact s.store.is_tracking s.tracker.registered
      → let u = recover_if_tracking p o s in
        Agreement (intact || o.updates) u.store.is_tracking u.tracker.registered
  recovered-Agreement intact a = elim (Bool-cases s.store.is_tracking) [
    | inl on ↦
        recover_on-Agreement intact o.updates refl on
          (subst (λ b. Agreement intact b s.tracker.registered) on a)
    | inr off ↦
        subst
          (λ (u : Phone). Agreement (intact || o.updates) u.store.is_tracking u.tracker.registered)
          (sym (recover_if_tracking-off off))
          (same-Agreement (intact || o.updates) s.store.is_tracking s.tracker.registered (
            off
            ∙ sym (
                off-Agreement intact s.tracker.registered
                  (subst (λ b. Agreement intact b s.tracker.registered) off a))))
  ]

  pub to_background-registered : (to_background p o s).tracker.registered ≡ s.tracker.registered
  unfolding to_background
  to_background-registered =
      let b = force_flush o.auth s.tracker in
      flush_answer-registered b.0 o.flush_answered o.now b.1
      ∙ force_flush-registered o.auth s.tracker
