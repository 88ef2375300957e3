-- ===== src/Lib.antt =====
-- The core logic of the ZecTrix Note 4 platform: an e-paper device whose firmware is a set of
-- components around one foreground owner. The development models the components that keep state
-- and decide, and leaves hardware, drawing and third-party code outside.
--
-- Parts, their files and the code that they follow (paths from the repository's root):
-- Base: Boolean tests, lists over the native numbers and 32-bit words, shared by all. Base.Bits
--   has the digits of the bit operations, Base.Int the integers over the native numbers.
-- Button: the buffer of button events between the interrupt side and the owner,
--   components/note4_board/include/note4_button_buffer.h. Push and Pop are `push` and `pop`.
-- Host: the USB host protocol. Host.Channel is the slot between the USB worker and the owner,
--   components/note4_host/note4_host_channel.cc, one function per method; Host.Wire is
--   EncodeFrame and DecodeFrame of components/note4_host/note4_host_protocol.cc.
-- Crc: Crc32 of components/note4_companion/note4_companion_protocol.cc and FirmwareCrc32 of
--   components/note4_update/note4_update_stream.cc; Crc.Bounds bounds its results.
-- Protocol: the companion protocol, components/note4_companion/note4_companion_protocol.cc.
--   Protocol is the frame with its codec, Protocol.Tlv the typed fields of a payload,
--   Protocol.Values the values of the Hello fields, Protocol.Fragments the fragments and the
--   reassembler. Protocol.Frames, Protocol.Accepted, Protocol.Reassembly, Protocol.Delivery,
--   Protocol.EndToEnd and Protocol.Completion hold the proofs, as do the modules named RoundTrip.
-- Sync: the engine that keeps values, cursors and command results over restarts,
--   components/note4_companion/note4_sync_engine.cc. Sync.Table is the scan of a fixed array,
--   Sync.State the members, Sync.Persist writes the record and Sync.Load reads it at start-up,
--   Sync.Outgoing, Sync.Incoming, Sync.Commands and Sync.Cursors are the operations; Sync.Puts,
--   Sync.Acknowledges, Sync.Applied, Sync.Accepts, Sync.Commits, Sync.Results, Sync.History, Sync.Reload and Sync.Reconciles with their
--   modules hold the proofs about them.
-- Boot: VerifyPartitions and the boot guard, components/note4_system/note4_boot_guard.cc. Boot.Scan
--   and Boot.Layout prove what a verified layout means, Boot.Guard is the guard.
-- Update: the firmware stream, components/note4_update/note4_update_stream.cc, which asks the boot
--   guard for its target and writes what it accepts.
-- Connectivity: ConnectivityPolicy::Decide, components/note4_companion/note4_connectivity_policy.cc.
-- Pairing: the enrollment token, components/note4_companion/note4_pairing_bootstrap.cc.
-- Health: the foreground's watchdog and failure count,
--   components/note4_system/note4_health_supervisor.cc.
-- Reader: the saved positions of the last books, components/note4_reader/note4_reader_bookmarks.cc. Reader
--   is the array with Bookmarks::Put, Reader.Recent the list it stands for, Reader.Put the proofs,
--   Reader.Codec is EncodeBookmark and DecodeBookmark, Reader.Store has Save, Sync, ApplyRemote and
--   ResetPeer on a store, Reader.Load is Load, Reader.History the proofs
--   about the calls after it.
-- Scene: the stack of scenes of an application, components/note4_app/note4_scene_manager.cc.
-- Services: the registry that starts and stops services,
--   components/note4_platform/note4_service_registry.cc.
--
-- Outside code is a parameter: a store answers a save with a Boolean; a boot, flash or watchdog
-- backend answers with a record of results; a clock or a random source with its reading. An
-- operation that asks something of a backend returns the list of what it asked, in order. Two threads
-- that share an object under a mutex are a list of calls.
--
-- Numbers are natural numbers, and a size has the 32 bits that it has on the device; an addition or subtraction that can wrap is written with its modulus. The
-- loop of DecodeFrame of the USB protocol over the codes and the loop of LoadState over the records run
-- on fuel, the length of the input; every turn consumes a byte, so that the round trips show it to be
-- enough. All other loops are structural.
--
-- Not modelled: the sessions, transports and endpoints on top of the companion protocol, the session
-- loop of the USB protocol, the drivers, the display, the reader's parsers, and the application
-- runtime, which call ESP-IDF or vendored libraries for most of what they do.
pub mod Base
pub mod Button
pub mod Host
pub mod Sync
pub mod Crc
pub mod Protocol
pub mod Reader
pub mod Boot
pub mod Connectivity
pub mod Pairing
pub mod Update
pub mod Health
pub mod Scene
pub mod Services
