-- ===== src/Responses.antt =====
-- src/Responses.cpp: the texts that the server sends, for a build on Linux with sqlite.
pub mod Escape
pub mod Keys
pub mod Device
pub mod Samples
pub mod Reply
pub mod Series
pub mod Item
pub mod Health
pub mod Sensor
pub mod Process
pub mod Multiple
pub mod Finish
