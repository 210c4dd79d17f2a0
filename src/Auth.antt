-- ===== src/Auth.antt =====
-- Sign-in, sessions and accounts: stock_backend/app/services/auth_service.py, session_service.py,
-- email_token.py and the account part of user_service.py, with core/security.py and api/deps.py.
pub mod Tokens
pub mod World
pub mod Outside
pub mod Sessions
pub mod SignIn
pub mod Account
pub mod MailLinks
pub mod CurrentUser
pub mod Rotation
pub mod Revoked
pub mod Lock
pub mod Grace
pub mod SignOut
pub mod Simple
mod Tests
