-- ===== src/DeviceTree.antt =====
-- The device-tree collector (src/internal/sys_interface/devicetreecollector.cpp).
pub mod Buffer
pub mod Rtas
pub mod SystemVpd
pub mod Names
pub mod Location
pub mod Transfer
