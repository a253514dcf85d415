-- ===== src/ApiKey.antt =====
-- api/api_key: what a key gives access to, and how its text is made and taken apart.
pub mod Access
pub mod Token
pub mod Samples
