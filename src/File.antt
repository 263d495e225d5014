-- ===== src/File.antt =====
-- The file part of the library: Sources/rolling_file.cpp, fileutil.cpp, file_tree_walk.cpp,
-- binary_file.cpp and directory.cpp.
pub mod Guards
pub mod RollingFile
pub mod Stat
pub mod Path
pub mod Process
pub mod Walk
pub mod CFile
pub mod Binary
pub mod Records
pub mod Directory
pub mod System
pub mod Removal
pub mod Ensure
