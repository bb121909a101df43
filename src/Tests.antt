-- ===== src/Tests.antt =====
-- Runs of the models on small inputs.
mod Tables
mod Configs
mod Dates
mod Requests
mod Sessions
mod Daemons
mod Registries
mod Texts
mod GdbmFiles
mod Gdbms
mod Opens
mod Headers
mod Registrations
mod Unregistrations
mod Terminations
mod Copies
