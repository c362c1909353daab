-- ===== src/Models.antt =====
-- The list models of the user interface, over the stores of the configuration. A row is an int; a
-- QVariant that is not valid is `none`.
pub mod Rows
pub mod Alarms
pub mod Stations
pub mod Podcasts
pub mod Episodes
pub mod Networks
pub mod Safety
