-- ===== src/Tests.antt =====
-- Witnesses: the theorems at concrete inputs.
pub mod Lba
pub mod Storage
pub mod DeviceType
pub mod Idblock
pub mod Image
pub mod UpgradeLoader
pub mod Transaction
pub mod Partition
pub mod DeviceChoice
pub mod Upgrade
pub mod Firmware
pub mod Session
pub mod Program
