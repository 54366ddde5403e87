-- ===== src/Serial.antt =====
-- `SerialPort` of src/serial_port.cpp over the system calls it makes.
pub mod System
pub mod Termios
pub mod Port
pub mod Write
pub mod Held
