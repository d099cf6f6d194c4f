-- ===== src/Controller.antt =====
-- operator_controller.py: the lease of a controller pass, the queue of triggers and the frontier.
pub mod Lease
pub mod Triggers
pub mod Frontier
