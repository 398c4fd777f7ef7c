-- ===== src/Ioctl.antt =====
-- The ioctl handler: vuinputd/src/cuse_device/vuinput_ioctl.rs, with the request codes of
-- uinput-ioctls/src/lib.rs. The codes are those of `request_code_*` of nix on x86-64: direction in
-- bits 30 and 31, size in bits 16 to 29, type `U` in bits 8 to 15, number in bits 0 to 7.
pub mod Codes
pub mod Mapping
pub mod Lookup
pub mod Handler
