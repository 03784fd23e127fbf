-- ===== src/Program.antt =====
-- The subcommands of the program, from their arguments on (src/bin/rktools/main.rs).
pub mod Errors
pub mod Listing
pub mod Wait
pub mod Reset
pub mod DownloadBoot
pub mod Lba
pub mod Storage
pub mod Info
pub mod UpgradeLoader
pub mod Main
