-- ===== src/Sse.antt =====
-- The stream of a chat's answer and its resumption: stock_backend/app/agent/sse.py, the function
-- _stream_with_timeouts of agent/chat_service.py and chat_resume of api/v1/chat.py.
pub mod Cache
pub mod Stream
pub mod Slices
pub mod Resume
mod Tests
