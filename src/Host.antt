-- ===== src/Host.antt =====
-- internal/tools: the tools that describe the host, beside those of the modules named for them.
mod Cpu
mod System
mod Network
mod Disks
