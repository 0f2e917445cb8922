-- ===== src/Tests.antt =====
-- Runs of the model on concrete inputs, and the theorems at inputs that meet their hypotheses.
mod Uuids
mod Keys
mod Uploads
mod Throttling
mod Names
mod Sessions
mod Tables
mod Requests
mod Logins
mod Retries
mod Stores
mod Originals
mod Databases
mod Starting
