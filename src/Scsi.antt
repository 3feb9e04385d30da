-- ===== src/Scsi.antt =====
-- The templates for SCSI and NVMe devices (src/internal/sys_interface/sysfs_SCSI_Fill.cpp), which
-- say how a page of data that a device answers with is cut into keywords.
pub mod Matching
pub mod Templates
