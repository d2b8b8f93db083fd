-- ===== src/Auth.antt =====
-- packages/authentication: users, passwords, login and its throttling, with the PostgreSQL
-- repositories of users and login attempts.
pub mod Email
pub mod Password
pub mod State
pub mod Frame
pub mod Users
pub mod Attempts
pub mod Registration
pub mod Login
pub mod Throttle
