-- ===== src/Controller/App.antt =====
-- The application shell, controller/web/src/App.tsx.
pub mod Theme
pub mod Confirmation
pub mod Toasts
