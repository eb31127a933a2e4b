-- ===== src/Disk.antt =====
-- The disk drivers under src/kernel/disk: the partition table and the ATA ports.
pub mod Mbr
pub mod Ata
