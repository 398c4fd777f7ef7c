-- ===== src/Write.antt =====
-- Writes to a device: vuinputd/src/cuse_device/vuinput_write.rs. The events are read from the bytes
-- of the request in little-endian order, with the layouts of libc on x86-64.
pub mod Bytes
pub mod Loop
pub mod Stream
pub mod Legacy
pub mod Handler
