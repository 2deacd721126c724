-- ===== src/Ingestion.antt =====
-- Whom inbound mail is for: `_route_domains` of inbox/services/ingestion.py.
pub mod Recipients
pub mod Tenancy
pub mod Arrival
mod Tests
