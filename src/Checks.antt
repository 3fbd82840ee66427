-- ===== src/Checks.antt =====
-- Tests of the definitions, and the theorems at concrete inputs.
pub mod Decomposition
pub mod Exchanges
pub mod Numbers
pub mod Linear
pub mod Timers
pub mod Coupled
pub mod Marches
pub mod Steps
pub mod Starts
pub mod Readings
pub mod Registrations
pub mod Rasters
pub mod Limiters
pub mod Documents
pub mod Validations
pub mod Reloads
pub mod Sends
pub mod Integers
pub mod TwoCells
pub mod Flows
pub mod Regions
