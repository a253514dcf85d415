-- ===== src/Balancer.antt =====
-- LeastConnManager of api/instance/util.py: which instance serves a request, and the redis sets of
-- open connections that the choice is made by.
pub mod Connections
pub mod Targets
pub mod Session
pub mod Samples
