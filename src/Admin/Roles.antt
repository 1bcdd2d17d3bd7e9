-- ===== src/Admin/Roles.antt =====
-- admin/src/pages/roles.tsx: the dialogs of the roles' page.
pub mod Slug
pub mod Form
pub mod Permissions
mod Tests
