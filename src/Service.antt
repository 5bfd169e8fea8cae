-- ===== src/Service.antt =====
-- internal/service/service.go: the daemon as a launchd agent or a systemd user unit.
pub mod Units
pub mod Install
pub mod Effects
