-- ===== src/Tests.antt =====
-- Examples: each theorem at concrete data.
mod Data
mod Pushes
mod Requests
mod Webhooks
mod Limits
mod Rates
mod Parses
mod Auths
mod Services
mod Runs
