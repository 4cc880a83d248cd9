-- ===== src/Aptdb.antt =====
-- internal/aptdb: versions, stanzas, the apt indexes, upgrades and the reboot marker.
pub mod Version
pub mod Index
pub mod Reboot
pub mod Stanza
pub mod Upgrade
