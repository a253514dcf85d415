-- ===== src/Invocation.antt =====
-- The invocation of a chute, api/invocation/router.py, api/invocation/util.py and api/chute/util.py.
pub mod Prefixes
pub mod Calls
pub mod Reply
pub mod Charges
pub mod Access
