-- ===== src/Deployment.antt =====
-- `_deploy_chute` of api/chute/router.py: the checks of a deployment, its fee, and what it writes.
--
-- A refused deployment is rolled back, so only an accepted one has a new store. Columns that are copied
-- and read nowhere here (the tagline, the readme, the logo, the slug and the like) are left out, and so
-- are the messages to the miners. A negative balance counts as 0.
pub mod Tables
pub mod Checks
pub mod Writes
pub mod Deploy
pub mod Accepted
pub mod Fees
pub mod Permitted
pub mod Stored
pub mod Samples
