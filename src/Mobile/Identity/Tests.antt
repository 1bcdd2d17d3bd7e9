-- ===== src/Mobile/Identity/Tests.antt =====
-- Tests and examples of mobile/src/services/trackingIdentity.ts on one device.
use Prim.Native.String.{◌++◌}
use mansariya.Base.{none, ◌≡◌, refl, arith}
use mansariya.Mobile.Identity.{
  TrackingSession, missing, malformed, Device, Platform, get_persisted_tracking_session,
}
use mansariya.Mobile.Identity.Laws.{IsRestorable, HashesSomething, append-ne_empty}

abbrev platform : Platform
platform = record {
  random_text = λ n. "0.x7";
  base36 = λ n. "t1";
  iso_date = λ n. "2026-01-02T10:00:00Z";
  sha256_hex = λ s. "e3b0" ++ s;
}

abbrev device : Device
device = record {
  install_secret = none;
  contributor_id = none;
  active_session = missing;
  draws = 0;
}

abbrev session : TrackingSession
session = record {
  identity_version = 1;
  device_hash = "e3b0";
  contributor_id = "c9";
  session_id = "sess_1";
  session_started_at = 50;
  next_batch_seq = 4;
}

platform-HashesSomething : HashesSomething platform
platform-HashesSomething payload = append-ne_empty "e3b0" payload (λ e. cc)

session-IsRestorable : IsRestorable session
session-IsRestorable = record {
  device_hash = λ e. cc;
  session_id = λ e. cc;
  session_started_at = omega arith;
  identity_version = omega arith;
  next_batch_seq = omega arith;
}

-- A text that does not parse is no session.
malformed_session :
    get_persisted_tracking_session (record device { active_session = malformed }) ≡ none
unfolding get_persisted_tracking_session
malformed_session = refl
