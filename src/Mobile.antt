-- ===== src/Mobile.antt =====
-- The mobile application (mobile/src).
pub mod Api
pub mod Identity
pub mod Tracker
pub mod Socket
pub mod Stores
pub mod App
pub mod ContributorAuth
pub mod RouteSync
pub mod LiveBuses
pub mod Leaderboard
pub mod RouteSearch
pub mod TripStart
pub mod Journey
pub mod RouteOnMap
pub mod Account
