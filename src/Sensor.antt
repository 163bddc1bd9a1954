-- ===== src/Sensor.antt =====
-- Sensors of the devices and their values: src/sensor.
pub mod Values
pub mod Series
pub mod Kinds
