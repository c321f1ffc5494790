-- ===== src/FmUi.antt =====
-- Parts of the shared panel widgets that do not draw (src/ui-common/fm-ui).
mod Tests
pub mod ContextMenu
