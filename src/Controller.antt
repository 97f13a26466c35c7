-- ===== src/Controller.antt =====
-- src/scord-ctl: the controller that deploys adhoc storages.
pub mod Environment
pub mod Command
pub mod Config
pub mod Handlers
