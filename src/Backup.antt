-- ===== src/Backup.antt =====
-- The backups of the database and of files: stock_backend/app/services/backup_service.py.
pub mod Client
pub mod Folder
pub mod Dump
pub mod Prune
pub mod Offsite
pub mod Full
pub mod Drill
pub mod Complete
pub mod Passed
pub mod Daily
pub mod Retained
mod Tests
