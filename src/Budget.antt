-- ===== src/Budget.antt =====
-- operator_mission_budget.py: the spend envelope of a mission and its breaker.
-- Amounts are whole units up to 10^12, whose sums a float holds exactly; fractions are not modelled.
pub mod Defs
pub mod Spend
pub mod Breaker
