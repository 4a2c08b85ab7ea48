-- ===== src/App.antt =====
-- The page's own modules, compiled from ui/src into ui/dist/Main.js (`_dippynark$elm$…`): the
-- list of sessions that the server sends, the session on display, and the server's address.
pub mod Helpers
pub mod Model
pub mod Update
pub mod Main
pub mod Riffle
pub mod Listing
pub mod Selection
pub mod Address
pub mod View
pub mod Options
pub mod Served
pub mod Connected
