-- ===== src/Gb28181.antt =====
-- gb28181: the platform and the devices of GB/T 28181.
pub mod Xml
pub mod Sdp
pub mod Ssrc
pub mod Port
pub mod Lines
pub mod Offer
pub mod Platform
pub mod Calls
pub mod Device
pub mod Serving
pub mod Handshake
pub mod Devices
pub mod Registry
