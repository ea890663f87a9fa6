-- ===== src/Tests.antt =====
-- Runs of the models on concrete inputs, and the theorems at inputs that meet their hypotheses.
mod Gates
mod Slots
mod Storage
mod Outside
mod Reports
mod Lessons
mod Runs
mod Planning
mod Operator
mod LiveGate
mod Texts
