-- ===== src/Tests.antt =====
-- Runs over a service in memory, and the theorems at concrete data.
mod Fake
mod Data
mod Balancers
mod Machines
mod Loops
mod Tables
mod Histories
mod Listeners
mod Health
mod Provider
mod Ensured
mod Instance
mod Targets
mod Steady
mod Deleted
mod Names
mod Updated
mod Answered
mod Again
mod Command
