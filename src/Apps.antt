-- ===== src/Apps.antt =====
-- The applications of the desktop, src/apps.
pub mod TextEditor
