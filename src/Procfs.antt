-- ===== src/Procfs.antt =====
-- internal/procfs/procfs.go: the parsers of /proc. A file is its content; where the code returns
-- what it has with the scanner's error, the second component tells of that error.
pub mod Meminfo
pub mod Blocks
pub mod Mounts
pub mod Process
