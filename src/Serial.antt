-- ===== src/Serial.antt =====
-- Pods on USB serial ports: `cocktail-maker/serial.cppm` and `serial.cpp`.
pub mod Ports
pub mod Discovery
pub mod Ansi
pub mod Lines
pub mod FirmwareLine
