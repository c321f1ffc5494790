-- ===== src/FmCore.antt =====
-- The platform independent core of the file panels (src/ui-common/fm-core).
pub mod Path
pub mod Names
pub mod Clipboard
mod Tests
