-- ===== src/Examples.antt =====
-- Runs of the model on concrete inputs, and the theorems at inputs that meet their hypotheses. It
-- models no code of the repository.
mod Fixtures
mod Storages
mod Http
mod Network
mod Stubs
mod Settings
mod Databases
mod Routing
mod Servers
mod Starting
mod Stops
mod Tools
