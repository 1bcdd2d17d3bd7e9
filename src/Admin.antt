-- ===== src/Admin.antt =====
-- The admin portal (admin/src).
pub mod Polyline
pub mod Auth
pub mod Api
pub mod Calls
pub mod DevicesSocket
pub mod RouteBuilder
pub mod RouteForm
pub mod LocationAutocomplete
pub mod Roles
pub mod LiveMap
pub mod Navigation
pub mod Pages
pub mod Theme
pub mod Timetables
pub mod BusMarker
pub mod DataTable
pub mod Users
pub mod Simulations
pub mod DataExport
