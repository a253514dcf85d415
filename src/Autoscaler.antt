-- ===== src/Autoscaler.antt =====
-- chute_autoscaler.py: the decision for each chute, the loop that collects the decisions, and the
-- removal of instances.
pub mod Types
pub mod Decide
pub mod Plan
pub mod Downsize
pub mod Samples
