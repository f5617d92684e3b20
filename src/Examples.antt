-- ===== src/Examples.antt =====
-- The theorems at concrete inputs, and tests of the definitions.
mod Accounts
mod Deliveries
mod Disconnects
mod Fences
mod Phones
mod Signins
mod Challenges
mod Workers
mod Passwords
mod Sessions
mod Console
mod Syncs
