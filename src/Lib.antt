-- ===== src/Lib.antt =====
-- istatserver is a daemon that collects the load, memory, network, disks, sensors and processes of a
-- machine and answers requests for them over TLS: src/main.cpp waits for connections, src/Socket.cpp
-- cuts the bytes of one connection into XML requests and answers them, src/Responses.cpp writes the
-- answers, src/Clientset.cpp keeps the clients that have shown the passcode, src/Conf.cpp reads the
-- configuration, and src/Stats.cpp with src/stats holds the samples.
--
-- Which file models what:
--   Prelude and below: notation, native numbers, lists, and `Outcome`, what a run may come to: a
--     value, a crash (a null pointer, an exception that nothing catches), or no result in the fuel.
--   Text: std::string as a list of bytes. Text/Explode and Text/Trim: `explode` and `trim` of
--     src/Utility.cpp. Text/Number: atoi, strtol, strtoul and `to_int` of src/Utility.h.
--   Xml: the tree of libxml that the program reads; libxml and zlib are the record `Libs`, a
--     parameter.
--   Clientset: src/Clientset.cpp, with clients.dat as a value. Conf: src/Conf.cpp.
--   Argument: src/Argument.cpp.
--   Stats: the fields of the collectors (src/System.h, src/stats) that the replies read.
--     Stats/SmartMetadata: src/stats/SmartMetadata.h. Stats/LinuxProcStat: src/stats/LinuxProcStat.h.
--     Stats/Schedule: the intervals of src/stats/StatBase.cpp. Stats/History: `addSample` and
--     `updateHistory` of src/stats/StatsLoad.cpp, which StatsCPU.cpp has alike. Stats/Window,
--     Stats/Items and Stats/Histories: the loops that the collectors share. Stats/Cpu, Memory,
--     Network, Activity, Processes, Sensors, Battery, Disks: the file of that name in src/stats as
--     Linux builds it, with what the files of /proc and /sys hold as a value; Stats/Disks also src/stats/FilesystemFilters.h.
--     Stats/Pass: `update_system_stats` and `updateNextTimes` of src/Stats.cpp.
--   Text/Scan: sscanf, fscanf of a number, and fgets of the C library, for the formats in use.
--   Responses and below: src/Responses.cpp, every reply byte for byte.
--   Socket: src/Socket.cpp. Socket/Frame: `is_framed_payload`, compression, one round of the loop of
--     `receive`. Socket/Request: `parse`. Socket/Receive: `receive`. Socket/Send: `send`.
--   Socketset: src/Socketset.cpp, where a reference to a connection is its slot. Main: the body of the
--     loop of src/main.cpp: a new connection, a request, and the removal of idle connections.
--   Tests: the theorems at concrete inputs.
--
-- State is passed explicitly: a request takes a `Peer` (the connection, the set of clients, the texts
-- sent) to the next. The loop of `receive` runs on fuel, one unit for each round; more units than
-- bytes are enough where no length wraps. `send` runs on the bytes and the calls that may ask to be
-- repeated, the schedule on the microseconds to catch up, the removal of idle connections on their
-- number, `explode` on the length of its text and two, the reading of related_cpus on the number of
-- the processors in it and one.
-- A double is an integer in millionths, since the replies only print doubles; how the stream library
-- prints and reads one is in the parameter `Standard`, and the arithmetic of the collectors on
-- doubles, which rounds, the parameter `Floats`. std::sort, which leaves the order of equal elements
-- open, is in `Standard` as well. What an uninitialised variable or a stale reference holds is an
-- argument, `stray`. The int arithmetic of the battery wraps; the sum of the threads, a long, does not
-- reach its bound.
--
-- Not modelled: the collectors of systems that are not Linux, libsensors, the calls of the operating
-- system (what they give is a parameter), the database of the samples, start-up and signals, TLS,
-- certificates, Avahi, and the other programs of the repository.
pub mod Prelude
pub mod Text
pub mod Xml
pub mod Clientset
pub mod Argument
pub mod Conf
pub mod Stats
pub mod Responses
pub mod Socket
pub mod Socketset
pub mod Main
pub mod Tests
