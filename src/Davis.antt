-- ===== src/Davis.antt =====
-- The part of the program that talks to Davis Instruments stations (src/davis/).
pub mod Crc
pub mod Archive
pub mod Params
pub mod Connector
