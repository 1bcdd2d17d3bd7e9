-- ===== src/Mobile/Stores.antt =====
-- The application's stores (mobile/src/stores).
pub mod MapStore
pub mod SavedStore
pub mod TrackingStore
pub mod ContributorStore
pub mod SettingsStore
pub mod MapLaws
pub mod SavedLaws
pub mod TrackingLaws
mod Tests
