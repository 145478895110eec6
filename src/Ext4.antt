-- ===== src/Ext4.antt =====
-- os/src/ext4fs: the parts of the ext4 implementation that work on raw bytes.
pub mod Checksum
pub mod DirEntry
