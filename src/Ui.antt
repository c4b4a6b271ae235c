-- ===== src/Ui.antt =====
-- src/client/src/ui: the models behind the views.
pub mod Arrays
pub mod Blotter
pub mod SpotTile
pub mod Footer
pub mod Regions
pub mod Analytics
pub mod Notional
pub mod Shell
pub mod Popouts
pub mod Classes
