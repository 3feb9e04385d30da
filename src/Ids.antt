-- ===== src/Ids.antt =====
-- The tables of pci.ids and usb.ids (src/internal/devicelookup.cpp, manufacturer.cpp, device.cpp and
-- subdevice.cpp beside it): four classes, each with a constructor that reads its part of the file.
pub mod Stream
pub mod Parse
pub mod Lookup
