-- ===== src/Lib.antt =====
-- A model of the ROS 2 driver of Unicore GNSS receivers: the serial port, and the bytes that it
-- delivers, from the receive buffer to decoded sentences.
--
-- How the parts interact. `UnicoreNode::poll_serial` (src/unicore_node.cpp) appends what each read
-- returns to the buffer of a `UnicoreTransport` (src/unicore_transport.cpp) and drains it. `drain`
-- cuts the buffer into ASCII lines and binary frames. A frame goes to `UnicoreBinaryDispatcher`
-- (src/unicore_transport.cpp), which names it and counts it, and to `UnicoreBinaryNavParser`
-- (src/unicore_binary_nav.cpp), which reads its payload. A line goes to `UnicoreParser`
-- (src/unicore_parser.cpp). Both parsers give a `ParsedSentence`. The bytes come from a `SerialPort`
-- (src/serial_port.cpp), to which the node also writes the RTCM corrections. They come from `NTRIPClientNode`
-- (ntrip_client_node/src/ntrip_client_node.cpp), a node of its own, which publishes what a caster sends
-- and sends it the position as a GGA sentence.
--
-- Files and what they model:
--   Base       shared names, Boolean tests, lists, signed integers, the laws of the bit operations.
--   Wire       the static functions of `UnicoreTransport`: `find_binary_sync`,
--              `begins_with_binary_sync_prefix`, `read_le16`, `read_le32`, `crc32_unicore_binary`,
--              and `std::string::find` of one byte. Wire/Crc, Wire/Fields and Wire/Search prove.
--   Transport  the state and the operations of `UnicoreTransport`, and `try_extract_binary_frame`.
--              Transport/Drain has the loop of `drain`, Transport/Total its termination.
--              Transport/Stream describes what a receiver sends, without the driver's code;
--              Transport/FrameRound and Transport/LineRound treat one frame and one line of it,
--              Transport/Chunks a whole stream in arbitrary reads (`feed` is the loop of
--              `poll_serial`). Transport/Segments treats arbitrary buffers, Transport/Corrupt a frame
--              with a wrong byte, Transport/Ascii the mode without binary frames.
--   Dispatch   `UnicoreBinaryDispatcher`; Dispatch/Recent and Dispatch/Kept treat its counters.
--   Payload    the reads of src/unicore_binary_nav.cpp: `has_range`, `read_u8` to `read_float64`,
--              `read_char_array`, `bit_mask`, `read_bits_le`, `sign_extend`; Payload/Range,
--              Payload/BitField and Payload/Signed prove.
--   Sentence   the records of include/mowgli_unicore_gnss/unicore_parser.hpp.
--   Floats     the operations on `double`, and `strtod`, that the parsers use: a parameter.
--   Nav        `UnicoreBinaryNavParser`: Nav/Names has the tables of names of
--              src/unicore_binary_nav.cpp, Nav/Status `parse_agcb`, `parse_jamstatusb`,
--              `parse_freqjamstatusb`, `parse_rtkstatusb` and `parse_rtcmstatusb`, Nav/BestSat
--              `parse_bestsatb`, Nav/Floating `parse_hwstatusb`, `parse_bestnavb` and `parse_pvtslnb`,
--              Nav/SatsInfo `parse_satsinfob`, which Nav/Counted treats, Nav/Signals the bands and the
--              fields of a tracking status, which Nav/Tracking treats, Nav/Observations
--              `parse_obsvmcmpb` and `parse`.
--              Nav/Accepts and Nav/Entries hold messages against their byte layout, by Nav/Fields.
--   Ascii      `UnicoreParser`: Ascii/Numbers `parse_int` and `parse_uint32` over `strtol` and
--              `strtoul`, Ascii/Fields `trim`, `split_fields` and the text functions, Ascii/Checksum
--              `validate_nmea_checksum` and `validate_unicore_crc`, Ascii/Names the tables, Ascii/Status,
--              Ascii/Satellites and Ascii/Position the sentence parsers, Ascii/Line `parse_line`.
--              Ascii/Split, Ascii/Trim, Ascii/Hex, Ascii/Accept, Ascii/Sent, Ascii/Outcome,
--              Ascii/Decimal, Ascii/Agree and Ascii/Counts prove.
--   Serial     `SerialPort`: Serial/System has the system calls as a parameter with the laws that the
--              theorems use (what a descriptor is given, how often calls are interrupted, which descriptors
--              the process holds, what the reads return), Serial/Termios the attributes that `open` sets,
--              Serial/Port the operations. Serial/Write treats `write`, Serial/Held the descriptor.
--   Node       `UnicoreNode`: Node/State has the latest data and the parameters, Node/Active the `active_`
--              queries, Node/Publish `build_nav_status` and the two publications, Node/Process
--              `process_line` and `process_binary_frame`, Node/Rtcm `ensure_serial_open` and
--              `handle_rtcm`, Node/Poll `poll_serial`, whose events go to `process_event` of Node/Process,
--              Node/Diagnostic include/mowgli_unicore_gnss/diagnostic_state.hpp. Node/Fresh,
--              Node/Apart, Node/History, Node/Open, Node/Delivery and Node/Arrival prove.
--   Ntrip      `NTRIPClientNode`: Ntrip/Config has the settings, `connection_url` and the loop of
--              `on_set_parameters_callback`, Ntrip/Client the state, `apply_curl_options`, `on_fix`,
--              `write_callback` and the parts of `do_streaming` between two accesses of shared state,
--              Ntrip/Threads the two threads as a step relation, Ntrip/Gga `format_gga`.
--              Ntrip/Settings, Ntrip/Valid and Ntrip/Header treat all interleavings, Ntrip/Lost one that misses
--              a position and what comes behind it; Ntrip/Sentence, by Ntrip/Plain and
--              Ntrip/ReadBack, the line of `format_gga` under src/unicore_parser.cpp.
--   Report     the diagnostics of `UnicoreNode`: Report/Describe and Report/Counts have the text functions of
--              src/unicore_node.cpp, Report/Status what the nine statuses share, Report/Fix `gps_fix_status`,
--              Report/Satellites and Report/Sky `gps_satellites_status`, Report/Rtk `gps_rtk_status`,
--              Report/Caster `gps_ntrip_status`, Report/Rf `gps_rf_status`, Report/Hardware
--              `gps_hardware_status`, Report/Jamming `gps_jamming_status`, Report/Raw
--              `gps_raw_observation_status`, Report/Parser `gps_parser_status`, Report/Publish
--              `publish_diagnostics`, Report/Construct the constructor of `UnicoreNode` up to the publishers.
--              Report/Verdict, Report/Anomalies, Report/Order, Report/Window, Report/Tally, Report/Sums
--              and Report/Quiet prove.
--   Checks     runs on concrete inputs, and the theorems at concrete inputs.
--
-- State and operations. A C++ object is a record, a method that changes it a function that returns
-- the new record, `std::optional` and a `bool` result with an output argument are `Option`, and a
-- `std::string` or a `std::vector` of bytes is a list of natural numbers below 256. A `std::size_t`
-- counter wraps at 2 ^ 64, a shift or an or of machine words is cut to its width.
--
-- Bounds and fuel. `drain` runs on fuel of one round more than the buffer has bytes; each round that
-- goes on removes a byte at least, and Transport/Total proves that the fuel is always enough. The loop
-- of `split_fields` has one round more than the payload has bytes, and each round but the last takes a
-- comma. The loops of `write` and `wait_writable` depend on the system: Serial/Write proves that fuel
-- for the bytes and for the interruptions that the system still makes is enough, and Node/Arrival that
-- `poll_serial` needs one read more than there are chunks, for the end of the input or the error behind
-- them. An `int` that counts the entries of a sentence is not wrapped where the code increments it, since
-- an overflow is undefined there; a cast of a size to `int` is. A time of the steady clock is its
-- nanoseconds; each query reads it once, and so does a report, where the code reads it for each age.
--
-- Third-party code. Floating-point arithmetic, `strtod`, the conversions of `snprintf` and of a stream
-- on a `double`, the system calls and `declare_parameter` are parameters; Report/Window names what it
-- uses of IEEE 754, that rounding keeps the order. An `std::unordered_map` is its list of entries.
-- libcurl is the environment of the step relation: a request brings any chunks and ends at any time,
-- and ends with an error when the write callback does not return the size of the data. The executor
-- runs one callback of the node at a time. `isspace`, `strtol` and `strtoul` are written out for the
-- "C" locale, bases 10 and 16, and a `long` of 64 bits.
--
-- Not modelled: `errno` after a failed call of the serial port, the publishers, the timers and the
-- logging of `UnicoreNode`, the set-up of the curl handle that no later call changes, and of the
-- published messages the time stamp and the frame id. The value of a `double` is not interpreted.
mod Base
pub mod Wire
pub mod Transport
pub mod Dispatch
pub mod Payload
pub mod Sentence
pub mod Floats
pub mod Nav
pub mod Ascii
pub mod Serial
pub mod Node
pub mod Ntrip
pub mod Report
pub mod Checks
