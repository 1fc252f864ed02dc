-- ===== src/Tests.antt =====
-- Concrete inputs at which the theorems are applied.
mod Data
mod Crc
mod Archive
mod Connector
mod Services
mod Payloads
mod Synop
mod Sensors
mod Wind
mod Mqtt
mod Control
mod Watchdog
