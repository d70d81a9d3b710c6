-- ===== src/Lib.antt =====
-- The firmware of a wildfire sensor network: battery-powered nodes read sensors and send frames to a
-- base over LoRa, in TDMA slots of a session that the base announces.
--
-- The parts and how they meet. A node's `DutyCycleController` wakes its sensors, samples in a window and
-- sleeps for the rest of a cycle (module DutyCycle); it samples the battery too (module Battery).
-- `PacketHandler` gathers the quantized readings into BUNDLE and STATUS frames (module Telemetry) in the
-- wire format of BinaryPacket.h (module Wire). Frames wait in `TdmaTxQueue` until `TdmaClock` says that
-- the node's slot is open; then `TdmaRadioService` drains the queue, keeps what it sent in a window of
-- unacknowledged frames, and sends such a frame again until an ACK_SUMMARY releases it or it is too old
-- (module Tdma). Slot widths and budgets come from the network profile, validated with the airtime
-- formula (module Config). The base assigns ids and slots to nodes, tracks which telemetry numbers it
-- heard from each, reports them in ACK_SUMMARY frames, and reads framed commands from a serial line
-- (module BaseApp); it commands transmit power through `TxPowerController` (module TxPower). A node's
-- time stands on a 1024 Hz counter (module RtcTicks).
--
-- Which file models what; paths are from the repository's root.
--   Config.Airtime: platformio/include/radio/LoRaAirtime.h, `ceilDiv` to `applicationMilliseconds`.
--   Config.Profile, Config.Profile.Builtin: platformio/include/config/NetworkProfiles.h, the record
--     `NetworkProfile`, `isValid`, `fingerprint`, the builtin profiles and `profileForSelector`; and
--     `txBudgetMs` of platformio/include/config/NetworkConfig.h.
--   Wire.Packet, Wire.Layout, Wire.Constants, Wire.Crc, Wire.Encode, Wire.Decode:
--     platformio/include/telemetry/BinaryPacket.h, the packed structs, their bytes, the constants,
--     `crc8`, the `encode*` and the `decode*` functions.
--   Tdma.Clock: platformio/src/radio/TdmaClock.cpp, `applySync` to `baseRxWindowOpen`.
--   Tdma.TxQueue: platformio/src/radio/TdmaTxQueue.cpp, `enqueue`, `dequeue`, `peekPacketType`, `clear`.
--   Tdma.Radio: platformio/src/radio/TdmaRadioService.cpp. Types has the state and the configuration, Window
--     (with Window.Entries and Window.Remember) what each loop over the pending array does, Service the
--     operations from `begin` to `rememberSentTelemetry`, Receive the handlers of received frames (`checkIncomingTimeSync`,
--     `applyAckSummary`, `applyAssignedNodeId`, `updateRxPower`), Drain `drainTxQueue` and `update`,
--     Drain.Select the choice of a frame in it, Profile `nodeTdmaProfile` of
--     platformio/include/config/NetworkConfig.h.
--   BaseApp: platformio/src/app/SmartFiresBaseApp.cpp. State has the members of
--     platformio/include/app/SmartFiresBaseApp.h and what the base does outside (`Effect`), Tracker the ACK
--     trackers, Flush `sendPendingAckSummary`, Assign the assignments, the direct time syncs and the pending
--     commands, Uart the serial parser, Jetson `handleJetsonCommandPayload` and `sendTxPowerDecision`,
--     Incoming `processIncomingLoRa`, Loop `begin`, `update` and the sends of the base's slot. `update_base`
--     calls its parts in the order of `update`.
--   DutyCycle: platformio/src/power/DutyCycleController.cpp. Types has the state, Controller the operations
--     on it, Update `update` and what stands on it.
--   TxPower.Node, TxPower.Controller: platformio/src/radio/TxPowerController.cpp; Node has what happens to
--     one entry (`decide`, the round of the loop of `update`), Controller the table and the calls.
--   Telemetry.Types, Telemetry.Delta, Telemetry.Handler: platformio/src/radio/PacketHandler.cpp.
--   Battery: platformio/src/power/BatteryMonitor.cpp, all but `writeTelemetry`.
--   RtcTicks: platformio/include/platform/Samd21RtcTicks.h.
--   Base: tests, machine words, signed integers and lists over the native numbers.
--
-- How code becomes definitions. An operation takes the state and returns its results with the new state;
-- a call that reads a clock takes its reading. An unsigned word is a number with `% 2 ^ w` at each
-- operation that can wrap; a signed value is an integer, narrowed by `int8`, `int16` and `int32`, where
-- an int32 overflow is taken to wrap as the target's compiler does for these expressions at run time. A
-- buffer with its length is the list of its bytes, and `Option` stands for a returned 0 or false. The
-- active profile and the arithmetic of `float` are parameters (`NetworkProfile`, `FloatOps`,
-- `FloatArith`); the laws that a theorem needs of the latter say only that a conversion gives a value of
-- its type.
--
-- What lies outside the code comes in as an argument: every reading of `millis` in a call, the answers of
-- the radio driver to the attempts of a send, the packets it has received, and the answers of the
-- sensors. The driver's answers are a list, behind whose end an attempt succeeds. A call of `update` of the base takes them as a `Pass`, its slot as a `Window`. A call on the
-- driver is a value (`DriverCall`, `Sent`, `Effect`), in the order in which it is made. In the
-- duty cycle a trigger reading has any type, and the test of the threshold on floats is the parameter
-- `crossed`.
--
-- Bounds. The loops over arrays and lists recurse on their structure or on the number of entries left.
-- Four loops have a count: `drain_from` makes 3 rounds, which is the code's own limit; `advance` has 16,
-- the bits of the mask that it shifts right; `slide` has 7, as the receipt window moves by 20 numbers and
-- the number is less than 128 ahead; `drain_all` has one more than the frames in the queue. The loop of
-- attempts with a link acknowledgement, whose counter is a byte and wraps, recurses on the driver's answers:
-- every list of them stands for a call that returns. With 254 retries or more the code's loop has no bound of
-- its own, and a driver that never acknowledges keeps the call in it; that call has no result, and none is
-- modelled. The bounds
-- are those of the code: 14 deltas in a BUNDLE, 220 bytes in a queue entry, 8 entries in a queue and in
-- the window of pending frames, 16 tracked nodes; the airtime theorems hold up to 259 bytes, a LoRa frame
-- of 255 bytes with the four of the header.
--
-- Not modelled: of the base application, the health log; the node application, which wires its parts
-- together; `writeTelemetry` of the battery monitor, the drivers, sensors, logging and entry points,
-- which are input and output; what a failing decoder leaves in its out-parameters; the receiver in Python
-- under edge.
pub mod Base
pub mod BaseApp
pub mod Config
pub mod Wire
pub mod Tdma
pub mod TxPower
pub mod RtcTicks
pub mod Telemetry
pub mod DutyCycle
pub mod Battery
