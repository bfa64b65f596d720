-- ===== src/Tests.antt =====
-- Runs of the modelled code at concrete inputs, and the theorems at inputs that meet their
-- conditions.
mod Terminals
mod Channels
mod Network
mod Tables
mod Objects
mod Owners
mod Files
mod Namespaces
mod Requests
mod Units
