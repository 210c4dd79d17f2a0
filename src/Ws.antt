-- ===== src/Ws.antt =====
-- The WebSocket connections of the market feed (stock_backend/app/ws/manager.py).
pub mod Manager
pub mod Registry
pub mod Broadcast
pub mod Skip
mod Tests
