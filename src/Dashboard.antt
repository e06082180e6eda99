-- ===== src/Dashboard.antt =====
-- The node dashboard, agent/internal/api/web/app.js.
pub mod Theme
pub mod Menu
pub mod Escape
pub mod Format
pub mod Status
pub mod Store
pub mod Live
pub mod Settings
pub mod Commands
pub mod MetricDetail
pub mod Chart
pub mod Metadata
pub mod Variables
pub mod Cards
pub mod Stream
pub mod Toast
pub mod Sparkline
pub mod MetricChart
pub mod RawJson
pub mod About
pub mod Health
pub mod Markup
