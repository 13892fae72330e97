-- ===== src/Backup.antt =====
-- `src/backup`: which snapshots are kept, and how payloads are migrated.
pub mod Retention
pub mod Payload
