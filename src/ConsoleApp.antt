-- ===== src/ConsoleApp.antt =====
-- The console application (src/console-app/src): its editor, its texts and its file operations.
pub mod Chars
pub mod Editor
pub mod Util
pub mod App
pub mod FileOps
pub mod Overlays
mod Tests
