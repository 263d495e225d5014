-- ===== src/Stream.antt =====
-- The stream part of the library: simple_json_writer.hpp, simple_xml_writer.hpp and iterator.hpp
-- of Sources.
pub mod Capture
pub mod Decode
pub mod Iterator
pub mod Output
pub mod Json
pub mod Xml
pub mod Attributes
