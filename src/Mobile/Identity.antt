-- ===== src/Mobile/Identity.antt =====
-- mobile/src/services/trackingIdentity.ts: the installation's secret, the contributor's id and the
-- tracking session, over the three keys of the device's storage.
mod Tests
pub mod Laws
use mansariya.Base.Texts.{take_text, drop_text}
use Prim.Native.String
use Prim.Native.String.{◌++◌}
use mansariya.Base.{
  ℕ, zero, suc, ◌+◌, String, Bool, Option, none, some, ◌||◌, ◌==◌, str_eq, if◌then◌else◌,
}

pub record TrackingSession : Type 0 where
  pub identity_version : ℕ
  pub device_hash : String
  pub contributor_id : String
  pub session_id : String
  pub session_started_at : ℕ
  pub next_batch_seq : ℕ

abbrev pub tracking_identity_version : ℕ
tracking_identity_version = 1

-- What stands in the storage under the session's key: nothing, a text that `JSON.parse` refuses, or
-- an object, in which an absent field reads as the falsy value of its type.
pub data StoredSession : Type 0 where
  missing : StoredSession
  malformed : StoredSession
  parsed : TrackingSession → StoredSession

-- `AsyncDevice` under the three keys of the module, and the number of random draws so far.
pub record Device : Type 0 where
  pub install_secret : Option String
  pub contributor_id : Option String
  pub active_session : StoredSession
  pub draws : ℕ

-- What the module takes from the platform: the n-th `Math.random().toString(36)`, a number's
-- `toString(36)`, a date's `toISOString()`, and SHA-256 of a text in hexadecimal digits.
pub record Platform : Type 0 where
  pub random_text : ℕ → String
  pub base36 : ℕ → String
  pub iso_date : ℕ → String
  pub sha256_hex : String → String

-- `if (existing)`: a stored empty text counts as absent.
abbrev pub existing : Option String → Option String
existing none = none
existing (some s) = if str_eq s "" then none else some s

abbrev pub persist_tracking_session : TrackingSession → Device → Device
persist_tracking_session session d = record d { active_session = parsed session }

module _ (p : Platform) where
  -- The results are the value and the device's new state; `now` is the clock.
  unfoldable pub random_token : ℕ → Device → String × Device
  random_token now d =
      (drop_text 2 (p.random_text d.draws) ++ p.base36 now, record d { draws = d.draws + 1 })

  unfoldable pub build_session_id : ℕ → Device → String × Device
  unfolding random_token
  build_session_id now d =
      let (token, d') = random_token now d in
      ("sess_" ++ (p.base36 now ++ ("_" ++ take_text 12 token)), d')

  abbrev pub day_bucket : ℕ → String
  day_bucket date = take_text 10 (p.iso_date date)

  unfoldable pub get_or_create_install_secret : ℕ → Device → String × Device
  unfolding random_token
  get_or_create_install_secret now d = elim (existing d.install_secret) [
    | some secret ↦ (secret, d)
    | none ↦
        let (one, d1) = random_token now d in
        let (two, d2) = random_token now d1 in
        let secret = "install_" ++ (one ++ ("_" ++ two)) in
        (secret, record d2 { install_secret = some secret })
  ]

  abbrev pub contributor_hash : String → String
  contributor_hash secret = take_text 32 (p.sha256_hex ("mansariya:contributor:v1:" ++ secret))

  unfoldable pub get_or_create_contributor_id : ℕ → Device → String × Device
  get_or_create_contributor_id now d = elim (existing d.contributor_id) [
    | some id ↦ (id, d)
    | none ↦
        let (secret, d') = get_or_create_install_secret now d in
        (contributor_hash secret, record d' { contributor_id = some (contributor_hash secret) })
  ]

  -- The payload names the identity's version, 1.
  unfoldable pub derive_daily_device_hash : ℕ → Device → String × Device
  derive_daily_device_hash date d =
      let (secret, d') = get_or_create_install_secret date d in
      (p.sha256_hex ("mansariya:1:" ++ (day_bucket date ++ (":" ++ secret))), d')

  -- The day's hash, the contributor, then the session's name, in the order of the source.
  unfoldable pub create_tracking_session : ℕ → Device → TrackingSession × Device
  create_tracking_session now d =
      let (hash, d1) = derive_daily_device_hash now d in
      let (contributor, d2) = get_or_create_contributor_id now d1 in
      let (name, d3) = build_session_id now d2 in
      let session : TrackingSession = record {
        identity_version = tracking_identity_version;
        device_hash = hash;
        contributor_id = contributor;
        session_id = name;
        session_started_at = now;
        next_batch_seq = 1;
      } in
      (session, persist_tracking_session session d3)

-- `a || b` on numbers
abbrev or_number : ℕ → ℕ → ℕ
or_number a b = if a == 0 then b else a

-- The checks and the defaults of `getPersistedTrackingSession` on a parsed object.
restore : TrackingSession → Option TrackingSession
restore s =
    if str_eq s.device_hash "" || str_eq s.session_id "" || s.session_started_at == 0
    then none
    else some (record s {
      identity_version = or_number s.identity_version tracking_identity_version;
      next_batch_seq = or_number s.next_batch_seq 1;
    })

unfoldable pub get_persisted_tracking_session : Device → Option TrackingSession
unfolding restore
get_persisted_tracking_session d = elim d.active_session [
  | missing ↦ none
  | malformed ↦ none
  | parsed s ↦ restore s
]

abbrev pub clear_tracking_session : Device → Device
clear_tracking_session d = record d { active_session = missing }
