-- ===== src/Mobile/Identity/Laws.antt =====
-- The identities are stable, and a session survives its storage.

use mansariya.Base.Texts.{take_text}
use Prim.Native.String.{◌++◌}
use text.Mathlib.TextLemmas.{cons-append}
use mansariya.Base.{
  ℕ, suc, ◌<◌, String, some, ◌≡◌, ◌≢◌, arith, eq_iff, refl, inl, inr, ap, Option-cases,
}
use mansariya.Mobile.Identity.{
  TrackingSession, StoredSession, missing, malformed, Device, Platform, parsed, existing,
  build_session_id, day_bucket, get_or_create_install_secret, get_or_create_contributor_id,
  derive_daily_device_hash, create_tracking_session, persist_tracking_session,
  get_persisted_tracking_session,
}

pub append-ne_empty : (s : String) (t : String) → s ≢ "" → s ++ t ≢ ""
append-ne_empty String.[] t h = absurd (h refl)
append-ne_empty (String.◌∷◌ c s) t h = λ e. cc (rw cons-append at e)

take_text-ne_empty : (n : ℕ) (s : String) → s ≢ "" → take_text (suc n) s ≢ ""
unfolding take_text
take_text-ne_empty n String.[] h = h
take_text-ne_empty n (String.◌∷◌ c s) h = λ e. cc

existing-some : (s : String) → s ≢ "" → existing (some s) ≡ some s
existing-some s h = ground (arith, eq_iff s "")

-- What the checks and the defaults of the reader leave alone.
pub record IsRestorable (s : TrackingSession) : Type 0 where
  pub device_hash : s.device_hash ≢ ""
  pub session_id : s.session_id ≢ ""
  pub session_started_at : 0 < s.session_started_at
  pub identity_version : 0 < s.identity_version
  pub next_batch_seq : 0 < s.next_batch_seq

-- A restorable session that is persisted is read back as it was.
pub get_persisted-persist :
    (s : TrackingSession) (d : Device)
    → IsRestorable s
    → get_persisted_tracking_session (persist_tracking_session s d) ≡ some s
unfolding get_persisted_tracking_session
get_persisted-persist s d h = ground (arith, eq_iff s.device_hash "", eq_iff s.session_id "")

-- What is read back can be restored again, whatever stands in the storage.
pub get_persisted-IsRestorable :
    (d : Device) (s : TrackingSession) → get_persisted_tracking_session d ≡ some s → IsRestorable s
unfolding get_persisted_tracking_session
get_persisted-IsRestorable d s h = on_stored d.active_session h
  where
    on_stored :
        (st : StoredSession)
        → get_persisted_tracking_session (record d { active_session = st }) ≡ some s
        → IsRestorable s
    on_stored missing e = cc
    on_stored malformed e = cc
    on_stored (parsed r) e = ground (arith, eq_iff r.device_hash "", eq_iff r.session_id "")

-- SHA-256 in hexadecimal digits is never the empty text.
abbrev pub HashesSomething : Platform → Type 0
HashesSomething p = (payload : String) → p.sha256_hex payload ≢ ""

module _ (p : Platform) where
  install_secret_kept :
      (t : ℕ) (d : Device)
      → existing (get_or_create_install_secret p t d).1.install_secret
        ≡ some (get_or_create_install_secret p t d).0
  unfolding get_or_create_install_secret
  install_secret_kept t d = elim (Option-cases (existing d.install_secret)) [
    | inl new ↦
        rw (new, get_or_create_install_secret)
          (existing-some _ (append-ne_empty "install_" _ (λ e. cc)))
    | inr (s, old) ↦ rw (old, get_or_create_install_secret) old
  ]

  install_secret_again :
      (u : ℕ) (d : Device) (s : String)
      → existing d.install_secret ≡ some s
      → get_or_create_install_secret p u d ≡ (s, d)
  unfolding get_or_create_install_secret
  install_secret_again u d s h = rw (h, get_or_create_install_secret)

  contributor_id_again :
      (u : ℕ) (d : Device) (s : String)
      → existing d.contributor_id ≡ some s
      → get_or_create_contributor_id p u d ≡ (s, d)
  unfolding get_or_create_contributor_id
  contributor_id_again u d s h = rw (h, get_or_create_contributor_id)

  contributor_id_kept :
      HashesSomething p
      → (t : ℕ) (d : Device)
      → existing (get_or_create_contributor_id p t d).1.contributor_id
        ≡ some (get_or_create_contributor_id p t d).0
  unfolding get_or_create_contributor_id
  contributor_id_kept hashes t d = elim (Option-cases (existing d.contributor_id)) [
    | inl new ↦
        rw (new, get_or_create_contributor_id)
          (existing-some _ (take_text-ne_empty 31 _ (hashes _)))
    | inr (s, old) ↦ rw (old, get_or_create_contributor_id) old
  ]

  -- Neither the session nor the day's hash touches a contributor id that is there.
  hash_keeps_contributor :
      (u : ℕ) (d : Device) → (derive_daily_device_hash p u d).1.contributor_id ≡ d.contributor_id
  unfolding derive_daily_device_hash get_or_create_install_secret
  hash_keeps_contributor u d = ground arith

  session-contributor_id :
      (u : ℕ) (d : Device)
      → (create_tracking_session p u d).0.contributor_id
        ≡ (get_or_create_contributor_id p u (derive_daily_device_hash p u d).1).0
  unfolding create_tracking_session
  session-contributor_id u d = refl

  stored-contributor_id :
      (u : ℕ) (d : Device)
      → (create_tracking_session p u d).1.contributor_id
        ≡ (get_or_create_contributor_id p u (derive_daily_device_hash p u d).1).1.contributor_id
  unfolding create_tracking_session build_session_id
  stored-contributor_id u d = refl

  -- Where SHA-256 gives no empty text, every later session carries the contributor id of the one
  -- that was created before, at any time.
  pub contributor_id_stable :
      HashesSomething p
      → (t u : ℕ) (d : Device)
      → (create_tracking_session p u (create_tracking_session p t d).1).0.contributor_id
        ≡ (create_tracking_session p t d).0.contributor_id
  contributor_id_stable hashes t u d =
      let d1 = (derive_daily_device_hash p t d).1 in
      let d2 = (create_tracking_session p t d).1 in
      let kept : existing (derive_daily_device_hash p u d2).1.contributor_id
          ≡ some (get_or_create_contributor_id p t d1).0 =
        rw (hash_keeps_contributor u d2, stored-contributor_id t d)
          (contributor_id_kept hashes t d1) in
      rw (session-contributor_id, session-contributor_id t d)
        (ap (λ r. r.0) (contributor_id_again u (derive_daily_device_hash p u d2).1 _ kept))

  -- Looking up the contributor keeps a secret that is there.
  contributor_keeps_secret :
      (u : ℕ) (d : Device) (s : String)
      → existing d.install_secret ≡ some s
      → (get_or_create_contributor_id p u d).1.install_secret ≡ d.install_secret
  unfolding get_or_create_contributor_id
  contributor_keeps_secret u d s h = elim (Option-cases (existing d.contributor_id)) [
    | inl new ↦
        rw (new, get_or_create_contributor_id)
          (ap (λ r. r.1.install_secret) (install_secret_again u d s h))
    | inr (c, old) ↦ rw (old, get_or_create_contributor_id)
  ]

  stored-install_secret :
      (u : ℕ) (d : Device)
      → (create_tracking_session p u d).1.install_secret
        ≡ (get_or_create_install_secret p u d).1.install_secret
  unfolding create_tracking_session build_session_id derive_daily_device_hash
  stored-install_secret u d = contributor_keeps_secret u _ _ (install_secret_kept u d)

  session-device_hash :
      (u : ℕ) (d : Device)
      → (create_tracking_session p u d).0.device_hash
        ≡ p.sha256_hex
            ("mansariya:1:" ++ (day_bucket p u ++ (":" ++ (get_or_create_install_secret p u d).0)))
  unfolding create_tracking_session derive_daily_device_hash
  session-device_hash u d = refl

  -- On one day, every session has the same device hash.
  pub device_hash_daily :
      (t u : ℕ) (d : Device)
      → take_text 10 (p.iso_date u) ≡ take_text 10 (p.iso_date t)
      → (create_tracking_session p u (create_tracking_session p t d).1).0.device_hash
        ≡ (create_tracking_session p t d).0.device_hash
  device_hash_daily t u d h =
      let d2 = (create_tracking_session p t d).1 in
      let kept : existing d2.install_secret ≡ some (get_or_create_install_secret p t d).0 =
        rw (stored-install_secret t d) (install_secret_kept t d) in
      cc (
        session-device_hash t d,
        session-device_hash u d2,
        ap (λ r. r.0) (install_secret_again u d2 _ kept),
      )

  build_session_id-ne_empty : (t : ℕ) (d : Device) → (build_session_id p t d).0 ≢ ""
  unfolding build_session_id
  build_session_id-ne_empty t d = append-ne_empty "sess_" _ (λ e. cc)

  -- Where SHA-256 gives no empty text, a session that is created at a positive time can be
  -- restored.
  pub create-IsRestorable :
      HashesSomething p
      → (t : ℕ) (d : Device) → 0 < t
      → IsRestorable (create_tracking_session p t d).0
  create-IsRestorable hashes t d h = record {
    device_hash = rw (session-device_hash t d) (hashes _);
    session_id = unfold create_tracking_session in build_session_id-ne_empty t _;
    session_started_at = unfold create_tracking_session in h;
    identity_version = unfold create_tracking_session in omega arith;
    next_batch_seq = unfold create_tracking_session in omega arith;
  }

  -- Creating a session persists it.
  pub create-persists :
      (t : ℕ) (d : Device)
      → (create_tracking_session p t d).1
        ≡ persist_tracking_session
            (create_tracking_session p t d).0
            (create_tracking_session p t d).1
  unfolding create_tracking_session
  create-persists t d = refl
