-- ===== src/Auth.antt =====
-- Local authentication (linkmoth_auth.py) and the requests that use it (linkmoth_handler.py): the
-- throttle on guesses, sessions, the second factor, onboarding, and read-only tokens.
pub mod Data
pub mod Client
pub mod Throttle
pub mod Window
pub mod Sessions
pub mod Factors
pub mod Manage
pub mod Enrol
pub mod Tokens
pub mod Requests
pub mod Backing
pub mod Replay
pub mod Onboard
pub mod Codes
pub mod Forwarded
pub mod Kept
pub mod Routes
pub mod SecondFactor
mod Tests
