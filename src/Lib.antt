-- ===== src/Lib.antt =====
-- Verification of openframetap, which drives a DJI Osmo Pocket 3 over Bluetooth and Wi-Fi: it
-- speaks the camera's DUML protocol, pairs with it, takes its video, and moves its gimbal.
--
-- Bytes.antt and Bits.antt stand for Python's bytes, int.from_bytes, int.to_bytes and the operators
-- &, | and ^ on numbers. Prelude.antt has the tests, lists and errors that all parts share.
--
-- Crc.antt is src/openframetap/protocol/crc.py: `_reflect` is reflect, `_crc` is crc with its
-- keyword arguments as a record, and crc8_dji and crc16_dji are its instances. Crc/Mirror is about
-- the reflection, Crc/Register and Crc/Detect about the register.
--
-- Duml.antt is src/openframetap/protocol/duml.py. encode_duml_frame and decode_duml_frame have the
-- source's names; frame_header, frame_body and without_crc16 are the encoder's intermediate values,
-- declared_length and frame_of those of the decoder. Duml/Shape and Duml/Wire take frames apart by
-- octets, Duml/RoundTrip and Duml/Reencode relate both directions.
--
-- Reassembly.antt is src/openframetap/protocol/reassembly.py, which calls the checksum and the
-- decoder. The buffer and the counters are the record Reassembler. turn is one round of the `while`
-- loop of feed, split where the source returns or continues: discard_garbage, inspect_head,
-- skip_head, judge_candidate. drain is the loop, with a bound on its rounds. A round that goes on
-- removes an octet, so feed gives one round more than there are octets. Reassembly/Scan is the
-- specification, a scan of the octets with no counters or reports; Reassembly/Split cuts its input
-- in two, and Reassembly/Head, /Marker, /Refines, /Streams and /Encoded relate the loop to it.
--
-- Pairing.antt is src/openframetap/pairing/state_machine.py: one function for each method, respond
-- for a call of any of them, after and events_of for histories of calls. Messages are constructors
-- with the values that are printed into them. Pairing/Responses is about single responses,
-- Pairing/History and Pairing/Attempts are about histories. docs/reference-matrix.md asks for the
-- subscription before any attempt; the code also takes a machine that has failed, subscribed or not.
--
-- DjiWifi.antt and DjiWifi/Envelope, /Flow and /Sequencer are the classes of
-- src/openframetap/protocol/dji_wifi.py. A method that raises leaves the sequencer as it was.
-- DjiWifi/Header, /RoundTrip, /Policy and /Windows have the lemmas. Media.antt is
-- src/openframetap/protocol/dji_wifi_media.py, on top of the basic header.
--
-- Att.antt is src/openframetap/protocol/framing.py and src/openframetap/protocol/sequence.py.
--
-- Floats.antt is an interface for the float operations that the code uses: literals, comparisons,
-- the sign, differences, products and quotients.
--
-- Gimbal.antt is src/openframetap/control/policy.py, and
-- src/openframetap/protocol/gimbal_commands.py from the rounded rates on, on top of the DUML codec;
-- Gimbal/Axes has the normalized axes. The product that gives the limit of the policy is a field of
-- the profile. Gimbal/Envelope, /Accepts and /Zero have the lemmas.
--
-- Safety.antt is FailClosedController of src/openframetap/control/safety.py with ControlInput of
-- src/openframetap/app/input.py: the data. Safety/Setup has its checks, Safety/Machine the methods
-- and Safety/Machine/Tick the tick and the loop of run, each split where the source branches or
-- returns; _send is send, present and after_sink, _zero is zero_out and zero_attempts,
-- emergency_stop is stop_now. The clock is a sequence of readings, and the sink a sequence of
-- outcomes; the frames presented to it and the transitions reported are kept, newest first. The
-- callback returns, the clock does not go back, and run is called by one task. Safety/Sends,
-- /Stops, /Moves, /Ticks, /Recovers and /Arming have the lemmas on single methods, Safety/Calls on
-- sequences of calls.
--
-- Texts.antt is Python's str as lists of code points. Network.antt is
-- src/openframetap/network/interfaces.py: is_rfc1918, build_rtmp_url and mask_identifier. UTF-8,
-- urlsplit and ip_address belong to the standard library and are the record Readers.
--
-- Commands.antt is src/openframetap/protocol/commands.py: the authorizations and
-- assert_send_allowed. Commands/Tables has its tables, Commands/Payloads and Commands/Validate its
-- validate_command_frame, branch by branch, Commands/Livestream is
-- src/openframetap/protocol/livestream_commands.py and Commands/Normal
-- src/openframetap/devices/pocket3_normal.py. Commands/Authorized is about authorizations,
-- Commands/Frames, /LiveFrames and /Replies about frames that are built, Commands/Agrees relates
-- the checks to the policy of the gimbal and to the network.
--
-- StickProfile.antt is src/openframetap/control/gimbal_profile.py from the rounded offsets on;
-- StickProfile/RoundTrip relates its two directions. StickControl.antt and StickControl/Pulse are
-- src/openframetap/control/gimbal_controller.py. A method gives the controller and its outcome,
-- since a method that raises has already changed the state; and_then is one call after another. The
-- clock and the sink are sequences as above, the commands that the sink has taken are kept, newest
-- first, and the watchdog and the time limit of a pulse strike between calls of the sink. The sink
-- fails with an error that is no TimeoutError.
-- StickControl/Bursts, StickControl/Pulse/Emits and /Bounded have the lemmas.
--
-- Dicts.antt is Python's dict with numbers as keys. Video.antt is OnlineMediaAssembler of
-- src/openframetap/video/normal_stream.py, with feed as feed_datagram and feed_fragment, split where
-- the source branches or returns; its dictionaries keep their order, its Counter is a function, and
-- times are floats. Video/Untouched is about other frames, Video/Gathers, /Steps, /Reassembles and
-- /Traces about the fragments of one frame, Video/Parts, /Bounded and /Runs about what can be held.
--
-- Collector.antt is src/openframetap/analysis/dji_wifi_media.py: the frames that come out, and
-- Collector/Feed the collector, with feed as collect and finish as finish_frames. Collector/Weights
-- and Collector/Conserves count fragments.
--
-- Transport.antt is src/openframetap/transport/dji_wifi_udp.py: the handshake and the state of a
-- session; Transport/Sends has what it sends, Transport/Camera the actions of the camera, from
-- src/openframetap/protocol/camera_actions.py, and Transport/Receives what it makes of a datagram.
-- The octets that struct makes of a focus point are a parameter.
-- What the socket and the clock answer are arguments, and a time limit that runs out is the end of
-- what arrives. Transport/Permits, /Methods and /Calls are about what may be sent, Transport/Kept and
-- /Paced about how often.
--
-- Input.antt and Input/Touch are src/openframetap/app/input.py: the keyboard, and the touch joystick
-- with its configuration. Python's lower is a parameter. Input/Keys and Input/Released are about
-- sequences of calls.
--
-- Examples.antt holds concrete inputs.
--
-- Octets are numbers, and where a statement needs them below 256 it says so. Numbers are not
-- negative, except the rates of the gimbal, so the lower halves of range checks are not modelled.
-- An index outside a byte string reads as zero; every index of the code stands behind a guard on
-- the length. Timeouts are counts of milliseconds. Operations are atomic. The views as dictionaries
-- and hexadecimal text are not modelled, and neither are the parts that only call the operating
-- system, D-Bus, GStreamer or the terminal. The live session of the gimbal, the normal-view
-- session and the reports on captures are not modelled either, nor are floating-point sticks.
pub mod Prelude
pub mod Bits
pub mod Crc
pub mod Bytes
pub mod Duml
pub mod Reassembly
pub mod Pairing
pub mod Dicts
pub mod DjiWifi
pub mod Att
pub mod Media
pub mod Floats
pub mod Gimbal
pub mod Safety
pub mod Texts
pub mod Input
pub mod Video
pub mod Collector
pub mod StickProfile
pub mod StickControl
pub mod Transport
pub mod Network
pub mod Commands
pub mod Examples
