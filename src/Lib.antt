-- ===== src/Lib.antt =====
-- EspWaveRider: a presence sensor on an ESP32-S3 with an LD2420 radar, BLE scanning, MQTT and a
-- local web page. The modelled program is the Rust firmware: the portable core crate
-- rust/crates/espwaverider-core/src and the firmware rust/firmware/esp32s3/src/main.rs.
--
-- Data flow. The UART delivers bytes, which main.rs buffers (`poll_radar_uart`,
-- `flush_radar_buffer_if_needed`) and radar.rs parses as an energy, a text or a generic frame.
-- metrics.rs derives metrics from the latest frame and decides whether somebody is there. main.rs
-- turns that decision and the presence pin into the presence state with a hold (`poll_presence`),
-- which the status LED and the debug view show. ble.rs keeps the tables of beacons seen and of
-- identity tags. command.rs parses the commands that configure all this. The MQTT packets of
-- main.rs and mqtt.rs carry the summaries of a room's nodes.
--
-- Files and code:
-- - Base (Base/Tests, Base/Lists, Base/Int): Boolean tests, lists measured by native numbers,
--   signed integers, and the library names passed on.
-- - Text (Text/Number, Text/Utf8, Text/Laws): the operations of Rust's `str` that the code uses,
--   integer parsing and UTF-8. A text is the list of its code points.
-- - Fixed: the vectors and strings of fixed capacity of the heapless crate, as an interface with
--   laws, which the definitions that use them take; Fixed/Model meets it with lists.
-- - Radar: rust/crates/espwaverider-core/src/radar.rs, function by function; Radar/Energy,
--   RoundTrip, Hex and TextFrames prove.
-- - Metrics, Metrics/Candidate: rust/crates/espwaverider-core/src/metrics.rs; the loops of
--   `apply_energy_metrics` are `scan_peak` and `scan_clusters`; Metrics/Peak, Clusters, Bounds,
--   Decision and Thresholds prove.
-- - Ble: rust/crates/espwaverider-core/src/ble.rs; `&mut` slices are lists passed and returned;
--   Ble/Slots, Sightings, Tags and Advertising prove.
-- - Detection, Detection/Uart, Detection/Debug: the part of `FirmwareState` in main.rs that
--   receives bytes, decides on presence and drives the LED, as the record `DetectionState`, and
--   the frame views of snapshot.rs; Detection/Hold, Led, Receive and Frames prove.
-- - Command (Command/Outcome, Fields, Payloads, Tuning): rust/crates/espwaverider-
--   core/src/command.rs; Command/Routing, Join and Limits prove.
-- - Hostname: `sanitize_hostname` of main.rs; Hostname/Laws proves.
-- - Mqtt and Mqtt/Payload: `build_mqtt_*_packet`, `mqtt_packet_length`, `take_mqtt_packet` and
--   `mqtt_wait_for_*` of main.rs, and mqtt.rs; Mqtt/Build, Take, RoundTrip and Stuck prove. What a
--   socket's reads give is a list of results.
-- - Release: rust/crates/espwaverider-core/src/release.rs; Release/Compare:
--   `compare_semantic_versions` of main.rs; Release/Url, Version and Compare prove.
-- - Ota: `OtaPartitionWriter` of main.rs; Ota/Region is the flash partition as an interface, which
--   Ota/Memory meets; Ota/Bytes, Holds, Steps and Image prove.
-- - Json: `append_u32`, `push_json_string_*` and `json_field_*` of main.rs; Json/Decimal, Fields,
--   Search and Objects prove.
-- - Peers, Peers/Summaries: the table of the other nodes in main.rs, as the record `PeersState`;
--   Peers/Table, Oldest, Events, Find and Sync prove.
-- - Update, Update/Attempts: `FirmwareSyncState` and the operations on it in main.rs;
--   Update/Highest, States, Service and ReleaseUrl prove. What a download gives is a parameter,
--   and every download ends with a result, while the source's socket reads wait without a time
--   limit.
-- - Settings, Settings/Views, Settings/Tags: the settings, the identity and the connection in
--   `FirmwareState` of main.rs, as the record `Connection`; Settings/Messages: the payloads and
--   messages for other nodes; Settings/Handle: `handle_command` and `process_command_buffer`, on
--   the record `DeviceState`; Settings/Limits, Invariant, Refusals, Restart and Announce prove.
--   Effects outside the state are a list.
-- - Http, Http/Response, Http/Ipv4: `read_http_route`, `parse_http_route`, `http_response`,
--   `parse_http_response_header` and the IPv4 text of main.rs; Http/Reading and Address prove.
-- - X/Examples: runs on concrete values, and each theorem at one.
--
-- Numbers are native natural numbers. Sums, products and casts of u8, u16 and u32 that can wrap
-- are taken modulo the power of two; `saturating_add` and `checked_add` are written out,
-- `saturating_sub` is the subtraction of natural numbers. A release build is modelled, in which
-- overflow wraps. `usize` has 32 bits.
--
-- Loops are structural recursion on the bytes or characters they read, or on the list of what a
-- socket's reads give. Four have fuel: UTF-8 decoding and `iter_ad_structures`, with the length of
-- their input, `encode_mqtt_remaining_length`, with one more than the value, which falls with each
-- turn, and the digits of `append_u32`, with ten places, as many as a 32-bit number has.
-- `take_packets` has fuel, and is shown to end within as many turns as the buffer has bytes.
--
-- Not modelled: the executor's tasks, radio, sockets, TLS, flash and the JSON that serde writes;
-- the DHCP packets and the tasks that answer HTTP; the loop that downloads an image with its
-- redirects, whose outcome is a parameter; the storage of settings; the texts for errors of Wi-Fi
-- and TLS; the vendored crates, which none of the modelled functions call; the earlier C++
-- firmware.
pub mod Base
pub mod Text
pub mod Fixed
pub mod Radar
pub mod Metrics
pub mod Ble
pub mod Detection
pub mod Command
pub mod Hostname
pub mod Mqtt
pub mod Release
pub mod Ota
pub mod Json
pub mod Peers
pub mod Update
pub mod Settings
pub mod Http
