-- ===== src/GtkApp.antt =====
-- Parts of the desktop application that do not draw (src/gtk-app).
mod Tests
pub mod ClipboardOps
pub mod Connections
