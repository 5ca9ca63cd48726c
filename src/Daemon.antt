-- ===== src/Daemon.antt =====
-- service/daemon.cpp: the daemon's options and the command line interface. A text of an option is the list of the
-- codes of its characters.
pub mod Options
pub mod Cli
pub mod Format
pub mod Adjust
pub mod Load
