-- ===== src/Lib.antt =====
-- E3onCANserver simulates Viessmann E3 devices on a CAN bus, or behind a DoIP gateway. This
-- library models its core in Python and proves what it promises to a client.
--
-- The parts and how they interact. The CAN bus (simulator/bus.py) has one transmit queue and
-- dispatches received frames by CAN-ID. A device (simulator/device.py) has two workers, for UDS
-- and for Service 77, each with a queue and an ISO-TP assembler (simulator/protocol/isotp.py); a
-- complete payload goes to the protocol handler (simulator/protocol/uds.py,
-- simulator/protocol/service77.py), which reads and writes the device's store
-- (simulator/datastore.py), and the response is segmented, possibly spoilt on purpose
-- (simulator/faults.py), and sent, its Consecutive Frames after a Flow Control frame of the
-- client. In DoIP mode a session (simulator/doip.py) takes requests from a TCP stream to the
-- devices. Cyclic tasks (simulator/cyclic.py, simulator/protocol/encoders.py) broadcast values
-- in the frames of simulator/protocol/collect.py, and energy meters (simulator/energy_meter.py)
-- a fixed frame.
--
-- Which file models what:
-- - Base and the files in Base/: lists, bits, dictionaries, integers, and results that may be an
--   exception.
-- - Isotp: `_pad`, `segment` and `ISOTPAssembler` of simulator/protocol/isotp.py, `feed` with
--   its three handlers. Isotp/Frames has the headers, Isotp/RoundTrip sending to receiving,
--   Isotp/Robust errors, bounds and the invariant, Isotp/Sequence frames out of sequence,
--   Isotp/Segments the frames of a payload one by one.
-- - Datastore: `DatapointStore` of simulator/datastore.py as the table and the resolvers.
--   Datastore/Laws has its laws. Datastore/File is `from_file` on lines of ASCII codes, with
--   Python's strip, split and int; Datastore/File/Lines and Datastore/File/Loads read written
--   lines back.
-- - Uds: `UDSHandler` of simulator/protocol/uds.py and the interface of
--   simulator/protocol/base.py. Uds/Replies has the answers, Uds/Frame what a request leaves
--   unchanged.
-- - Service77: `Service77Handler` of simulator/protocol/service77.py; Service77/Replies.
-- - Collect: `segment_collect` of simulator/protocol/collect.py. Collect/Decode is a listener
--   written from the documents, the specification; Collect/RoundTrip and Collect/Messages
--   compare the two.
-- - Faults: the ten faults of simulator/faults.py; Faults/Config `FaultConfig` and
--   `_maybe_inject`; Faults/Shape what every fault keeps; Faults/Edits and Faults/Detect what a
--   client's assembler makes of the faults on Consecutive Frames; Faults/Disguise,
--   Faults/Padding, Faults/Length, Faults/Overwriting and Faults/Shortening what it receives of
--   the faults that keep the form of the frames.
-- - Bus: `_send_with_retry`, `_tx_loop`, `register_rx` and `_rx_loop` of simulator/bus.py;
--   Bus/Transient says which errors are transient, Bus/Retry what the retries put on the bus,
--   Bus/Backoff how long they wait, Bus/Dispatch what a frame from the bus reaches.
-- - Device: `SimulatedDevice` of simulator/device.py and `send_frames` of simulator/faults.py: a
--   state with both workers and the store, `device_step` for one event of one queue and `run`
--   for any interleaving. Device/Doip is `handle_uds_payload`; Device/Health, Device/Reads and
--   Device/Register have theorems. Device/Clients says where a client and its worker stand
--   between two frames, Device/Responding and Device/Serving what one frame does,
--   Device/Requests what the handlers and the specification do with requests of both channels,
--   and Device/Received, Device/Linear and Device/Sharing put two clients together.
-- - Ecu: the specification of a device as its clients see it, without entries and frames;
--   Ecu/Refines has both handlers implement it. Ecu/Documented reads a Service 77 request as
--   docs/protocols.md describes it.
-- - Doip: the frames and `_session` of simulator/doip.py; Doip/Frames, Doip/Session.
--   Doip/Gateway is the specification of the devices behind a session, which Doip/Conversation
--   shows the session to implement. Doip/Server is the server with several connections,
--   Doip/Isolation their independence, Doip/Sharing what they get from the devices that they
--   share.
-- - Cyclic: simulator/cyclic.py, the encoders and the energy meters; Cyclic/Broadcast.
--   Cyclic/Config has the constructors of the encoders, and `load_energy_meters` of main.py.
-- - Main: `load_devices`, the device map of `_run_doip` and `_parse_doip_address` of main.py;
--   Main/Dispatch. Main/Load is `load_devices` and `_build_cyclic_task` over the configuration
--   as `json.load` gives it, Main/Json what Python makes of its values; Main/Load/Blocks
--   compares it with a configuration without "cyclic" blocks.
-- - Simulator: the loop of `_rx_loop` with the devices that `load_devices` has registered behind
--   its callbacks. Simulator/Wiring says where the callbacks lead, Simulator/Isolation that a
--   device behaves among others as it does alone, Simulator/Clients puts this together with
--   Device/Sharing and Ecu.
-- - Lifecycle: `run`, `_run_can` and `_run_doip` of main.py, and `start` and `stop` of all
--   objects; Lifecycle/Stopping what stopping leaves of the tasks, Lifecycle/Shutdown how the
--   program ends.
-- - A file Tests in a folder runs the definitions and applies the theorems at concrete inputs.
--
-- How the code is rendered. Byte strings are lists of numbers, and shifts are products and
-- quotients with powers of two; what Python's bytes, bytearray and struct require of a number is
-- written out where the code can violate it. An exception is an error value, and a task that it
-- ends is a worker that is not alive, or a session that is over. Random draws, the wall clock,
-- and what python-can answers to each attempt to send are arguments. A stop of python-can's
-- interface and a close of a socket are taken to raise nothing. A finite float is the integer
-- multiple of 2 ^ -1074 that it is. A text of more decimal digits than newer versions of Python
-- convert is converted.
--
-- Bounds and fuel. The loops of both segmentations run on the length of the rest of the payload,
-- from which each round takes a byte at least. The session runs on one round more than the
-- stream has bytes, and each frame takes 8. The retry loop has the six rounds of the source.
--
-- Not modelled: the command line, the parsing of JSON, the file system and the signals of
-- main.py, characters outside ASCII, logging, sockets and threads, and the asyncio machinery but
-- for the order of events, which is an argument, and for how a task has ended. What happens to
-- the tasks until a signal comes is an argument of the run. Delays change no frame and no order
-- of one worker's frames.
pub mod Base
pub mod Isotp
pub mod Datastore
pub mod Uds
pub mod Service77
pub mod Collect
pub mod Faults
pub mod Device
pub mod Ecu
pub mod Doip
pub mod Bus
pub mod Cyclic
pub mod Main
pub mod Lifecycle
pub mod Simulator
