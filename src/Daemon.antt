-- ===== src/Daemon.antt =====
-- node/daemon/src: the daemon's notifications.
pub mod Notifications
