-- ===== src/Lib.antt =====
-- lsvpd collects the vital product data (VPD) of a Power system. vpdupdate runs the collectors,
-- which describe each device as a component of libvpd; the gatherer makes one tree of the
-- components, which is stored in a database; lsvpd, lscfg, lsmcode and lsvio print it.
--
-- Which file models what (paths of the repository):
-- - Base: shared notation, lists over the native numbers, and texts as lists of bytes with what the
--   program uses of the C and C++ libraries on them.
-- - Vpd: src/internal/sys_interface/icollector.cpp. Vpd/Fields has the two functions `setVPDField`,
--   Vpd/Sanitize `isPrintable`, `hexDump` and `sanitizeVPDField`, Vpd/Fru `getFruDescription`. The
--   classes `Component` and `System` are libvpd's: what is done to one is the list of the calls made.
-- - Platform: src/internal/sys_interface/platformcollector.cpp, over the lines of /proc/cpuinfo.
-- - RtasCollector: `rtasGetVPD` of src/internal/sys_interface/rtascollector.cpp, over the answers of
--   librtas.
-- - DeviceTree: src/internal/sys_interface/devicetreecollector.cpp. Buffer has `parseVPDHeader`,
--   `parseVPDBuffer` and `fillIBMVpd`; Rtas has `parseRtasVpd`; SystemVpd has `parseSysVPD`; Names has
--   `isDevice`; Location has `parseMajorMinor`, `getBaseLoc` and `checkLocation`; Transfer has
--   `transferChildren`.
-- - Scsi: src/internal/sys_interface/sysfs_SCSI_Fill.cpp. Matching has `matches` and `findTemplate`,
--   Templates what takes a template apart, down to `process_template`, which cuts a page of data into
--   calls on a component.
-- - Ids: src/internal/devicelookup.cpp, manufacturer.cpp, device.cpp and subdevice.cpp beside it. Stream
--   has what they use of `std::ifstream`, Parse the constructors, Lookup the functions `getName`.
-- - Gatherer: src/internal/sys_interface/gatherer.cpp. `buildTree`, `fillTree` and `findComponent`
--   are in Gatherer, both functions `getComponentTree` in Gatherer/Collect.
-- - Output: src/output/lsvpd.cpp, lsvio.cpp, lscfg.cpp and lsmcode.cpp. Output has what they read of
--   a component and of a system, Output/Archive the unpacking of a database, which the four have in
--   common; Output/Lsvpd, Output/Lsvio, Output/Lscfg and Output/Lsmcode have the functions `printVPD`,
--   `printField`, `printPlatform`, `printSpecific` and `printSystem`, and `main` with its loop over the
--   options.
-- - Update: src/internal/updater.cpp. Environment has `ensureEnv`, Archive `removeOldArchiveDB` and
--   `archiveDB`, Store the functions `storeComponents`, Main the signal handler, `initializeDB` and
--   `main`; Update and Update/Files have the file system that they work on.
-- - Sysfs: src/internal/sys_interface/sysfstreecollector.cpp. Walk has `findDevices` and the filters
--   over the tree of directories, Details `getInitialDetails`, Components `getComponents` with the
--   links between devices and `setKernelName`, Duplicates `removeDuplicateDevices`, whose three
--   rules are stated in Duplicates/Rules, Numbers
--   `scsiGetHTBL`, Pci `parsePciVPDBuffer`, Fill `fillPCIDS`, and Fill/Buses `fillPCIDev`,
--   `fillUSBDev` and the location of `fillComponent`, Fill/Classes `fillNetClass` and
--   `getDevTreePath`. A `Device` has the fields of a component that these read.
-- - Tests: the theorems at concrete inputs, and runs of the definitions.
--
-- How the code is read. Memory is the list of the bytes behind a pointer. A read outside of it is
-- the outcome `fault`, since the language leaves it undefined; a theorem that a function does not
-- fault is a theorem about memory safety. `char` is unsigned, as on Power. The byte order of the
-- machine is an argument, and so is what a variable holds that is never set. Throwing an exception
-- is a constructor of the result. An `int` that stands for an id is its 32 bits. Running out of memory is not modelled, nor is what is logged.
--
-- Bounds. The loop of `parseVPDBuffer` has as many rounds as bytes up to the end, that of
-- `parseRtasVpd` as many as the data has bytes, and the calls of `buildTree` nest as deep as there
-- are devices; for each it is shown that more make no difference, errors included. The calls of
-- `matches` nest at most as deep as the pattern is long, and one more. The loops over pci.ids have
-- as many rounds as characters are left, and one more. The calls of `ensureEnv` nest at most as deep
-- as the path has characters, and the loop over `write` has at most as many rounds as bytes, and one
-- more each. The loop that removes duplicates has as many rounds as there are devices, and one
-- more, and that of `parsePciVPDBuffer` has as many as bytes are left.
--
-- Output. A program that prints is a function to its lines, the `endl` of each left out (a newline
-- inside of a value stands in its line, and splits it where the lines are written out), with the
-- status that it exits with and what it does to files; -1 is the status 255. The returns of
-- `getopt_long` are the list of the events in front of its -1. What the system, zlib and libvpd answer
-- are the fields of a record.
--
-- Not modelled: reading sysfs, the device tree and /proc (what the files hold is an argument where
-- it matters), the ioctl calls, the inside of the database, libvpd, librtas and sg3_utils;
-- what is written to the log. Of sysfstreecollector.cpp, `fillIDEDev`, `fillSpyreVpd` and
-- `findClassEntries`.
pub mod Base
pub mod Vpd
pub mod Platform
pub mod RtasCollector
pub mod DeviceTree
pub mod Gatherer
pub mod Scsi
pub mod Ids
pub mod Output
pub mod Update
pub mod Sysfs
mod Tests
