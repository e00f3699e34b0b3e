-- ===== src/Service.antt =====
-- The agent's own service: telemetry.py, monitor.py, service.py, api.py and relay_worker.py.
pub mod Telemetry
pub mod Monitor
pub mod Store
pub mod LocalApi
pub mod Forever
pub mod Worker
pub mod Simulator
pub mod Catalog
pub mod Diagnostics
