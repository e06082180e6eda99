-- ===== src/Controller.antt =====
-- The controller web client, controller/web/src.
pub mod App
pub mod Format
pub mod LiveRefresh
pub mod NodeDialog
pub mod UpsDialog
pub mod ConfigTab
pub mod Fleet
pub mod Api
pub mod NodeCard
pub mod SettingsPage
pub mod Alerts
pub mod HeaderMenu
pub mod Summary
