-- ===== src/Tests.antt =====
-- Runs of the model at fixed inputs, and the theorems at inputs that meet their hypotheses.
mod Data
mod State
mod Elections
mod Rounds
mod Watch
mod Survival
mod Requests
mod Client
mod Discovery
mod System
mod Split
mod Bakery
mod Repeated
mod Sockets
mod Process
mod Stops
mod Menus
mod Tables
