-- ===== src/Jobs.antt =====
-- The life of a back-test task: stock_backend/app/services/backtest_service.py, its Celery task
-- worker/tasks/backtest_tasks.py, its monitor services/backtest_monitor.py, and the tables of
-- repositories/backtest_repo.py.
pub mod Store
pub mod Execute
pub mod Worker
pub mod Create
pub mod Queries
pub mod Once
pub mod Redelivery
pub mod Completes
pub mod Twice
pub mod Ending
pub mod Settled
pub mod Slots
pub mod Progress
pub mod Isolation
pub mod Monitor
mod Tests
