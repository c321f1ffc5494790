-- ===== src/ViewerUi.antt =====
-- Parts of the viewer of files that do not draw (src/ui-common/viewer-ui).
pub mod HexDump
pub mod HexView
pub mod Encoding
pub mod Document
mod Tests
