-- ===== src/Lib.antt =====
-- Verification of Ice Commander, a two-panel file manager.
--
-- A panel shows one directory of a chain of file systems: a local disk or a server, and archives
-- and torrents that are mounted over their files. It keeps the levels from the base to the
-- directory, a history of places and the last selected names. The clipboard holds what was copied
-- or cut; a paste plans free names for it and hands the items to the transfer engine, which copies
-- them between two providers and, for a move, deletes the sources. The console application edits
-- texts in a buffer of its own; the viewer shows a file in several encodings and saves it; the
-- store of secrets keeps the passwords of connections under a data key that the machine or a master
-- password opens.
--
-- Which file models which part (paths from the repository's root, under src/):
--   Base: lists, texts as lists of byte codes, decimals, outcomes of operations (an error of
--     common/common/src/error.rs, a panic, or a future that is dropped at an await), and rules for
--     properties that operations keep or give.
--   FmCore.Path: ui-common/fm-core/src/path.rs (join_with, split_path, split_joined). The constant
--     `windows` is an argument. FmCore.Names: names.rs (split_stem_ext, first_free, keep_or_number).
--     FmCore.Clipboard: clipboard.rs; a subscriber is a number, and its calls are a list.
--   FmUi.ContextMenu: ui-common/fm-ui/src/context_menu.rs (unique_copy_name).
--   GtkApp.ClipboardOps: gtk-app/src/clipboard_ops.rs (plan_names, same_filesystem).
--     GtkApp.Connections: secret_store.rs, the secrets of the saved connections.
--   ViewerUi: ui-common/viewer-ui/src. Encoding and HexDump hold encoding.rs (Windows-1251,
--     to_hex_dump, the text for Format::Hex), HexView the cursor and the keys of hex_view.rs, Document
--     the formats, modes and edits of a document in content.rs, and what the button to save writes.
--     The text buffer of GTK is a parameter.
--   SecretStore: secret-store/src/lib.rs. Format holds the keyring and its text, Vault the data key and
--     the operations that find, wrap and open it (machine_dek, unlock_with_password,
--     set_master_password), Secrets the sealed texts, Exports the exported documents. Values are the
--     values of JSON.
--   TransferCore: transfer-core/src/lib.rs. TransferCore holds paths, items and retarget_top_level;
--     Scan and LocalScan the scan of other providers and of the local disk (scan_items); Engine the
--     world that is asked and the log of calls; Attempts one attempt at an item, between providers
--     (attempt_remote) and on the local disk (attempt_local, copy_one_file); Execute the loops, the
--     user's answers, and the deletions of a move (execute_transfer).
--   PanelCore: panel-core/src/lib.rs; PanelCore.Nav: nav.rs (NavPath, build_levels);
--     PanelCore.History: the History of state.rs; PanelCore.Router: RouterState of state.rs, with
--     Typing (navigate_typed) and Places (go_back, breadcrumb_segments, resolve_relative).
--     PanelCore.Segments: get_path_segments of ui-common/fm-core/src/rpc.rs.
--   PanelRouter: panel-router/src/router.rs (join_display and the resolve of RoutingProvider).
--   ConsoleApp: console-app/src. Chars and Editor hold the buffer of editor.rs; Util the texts of
--     util.rs; App the state of app.rs, pane.rs and overlay.rs with opening and saving in the editor;
--     FileOps fileops.rs; Overlays the keys of the windows (handle_overlay_key).
--
-- State is passed explicitly: an operation takes the state and returns an outcome and the state
-- that it leaves. Providers, clock, cancellation flag and local disk are parameters (Backend of the
-- panels, World of a transfer and of the console, Services of the secret store). Their answers may
-- change from one question to the next, since the number of the question is an argument; of the
-- secret store this holds of random draws and of writes, while its ciphers, encodings and the names
-- of machine and user answer the same each time, and the derivation of a key may fail, at which the
-- store panics. That the console starts a source is one answer, too, with the state that it leaves.
-- The answers of the user to errors of a transfer are a list, behind whose end the channel is closed;
-- the loop that tries an item again is recursion on that list, so that each finite conversation is
-- covered, and no fuel is needed. In the same way the scan of the local disk is recursion on the
-- tree of answers that it gets. The loop of the other scan runs on fuel, one directory for each
-- round; in a finite tree, where a directory weighs more than the directories in it together, one
-- more than the weight of the selected ones is enough. The search for a free name counts down the
-- numbers of the source's range 1..u32::MAX. u64 sums wrap at 2 ^ 64, as in a release build.
-- Permissions are set as on Unix; the message of an error is the error itself.
--
-- Not modelled: the user interfaces, the network clients and archive readers over third-party
-- libraries, the panel router but for its paths, the console's panes, terminal and drawing,
-- starting a source in it (activate_source of console-app/src/sources.rs), and the server; and of
-- the modelled files format_size, which is floating point, and the start of runtimes and threads.
pub mod Base
pub mod FmCore
pub mod FmUi
pub mod TransferCore
pub mod PanelCore
pub mod PanelRouter
pub mod GtkApp
pub mod ConsoleApp
pub mod SecretStore
pub mod ViewerUi
