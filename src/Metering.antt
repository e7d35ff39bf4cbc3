-- ===== src/Metering.antt =====
-- Usage counters (app/services/metering/usage.py), the effective entitlement
-- (app/services/entitlements/resolver.py) and the signal that push and parse responses echo
-- (app/services/metering/signal.py, app/schemas/entitlement.py).
pub mod Usage
pub mod Signal
