-- ===== src/Tests.antt =====
-- The theorems at concrete inputs, and runs of the definitions.
mod Buffers
mod Collectors
mod Trees
mod Values
mod Ids
mod Templates
mod Output
mod Update
mod Sysfs
