-- ===== src/Examples.antt =====
-- Tests on concrete inputs, and each theorem at an input where its hypotheses hold.
mod Operators
mod PlanNodes
mod PlanGates
mod PlanDags
mod Missions
mod Budgets
mod Controllers
mod Failures
mod WriteClaims
mod Relays
mod Placements
mod Delegating
