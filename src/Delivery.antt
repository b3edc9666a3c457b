-- ===== src/Delivery.antt =====
-- The delivery of briefings: the idempotency policy (src/scalping_briefing/delivery/guard.py) and
-- the service that applies it (src/scalping_briefing/delivery/service.py).
pub mod Guard
pub mod Service
mod Examples
