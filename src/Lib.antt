-- ===== src/Lib.antt =====
-- PipeASIO: an ASIO driver for Wine that plays and records through PipeWire.
--
-- The driver object (src/asio.c) is what a Windows audio program calls. It reads its settings from
-- an INI file (src/config.c, include/pipeasio_config.h) and from the environment, opens an audio
-- client (src/audio.c behind include/audio.h), registers a port for each channel, and exchanges
-- samples with the host through one callback buffer, whose layout is in include/pipeasio_offsets.h.
--
-- The modules follow these parts.
--   Config: src/config.c. Text and Number have the string and number functions, Parse the loader
--     (pipeasio_config_path, apply_kv, validate, pipeasio_config_load), Save the writer
--     (pipeasio_config_save) with the file system's states between its system calls.
--   Buffer: include/pipeasio_offsets.h (Offsets) and the copies of include/audio.h (Copy), on lists
--     of samples with explicit offsets.
--   Audio: src/audio.c. The record Client is struct audio_client; Registry has the registry walker,
--     Ports the ports and their choice, Filter activation, teardown and the process cycle, Rt the
--     real-time priority. A pointer to a port is its handle.
--   Driver: src/asio.c. The record Driver is struct IPipeASIOImpl; Configure, Init, Queries, Buffers,
--     Transport, Identity, Watch and WatchContext have its methods and callbacks, Lifecycle the steps
--     that a host, the graph and the watcher can take, in any order. Factory is src/main.c.
--   Bridge: src/wow64 and include/pipeasio_unix_abi.h. Tokens has the table of handles, Sync what one
--     thread does under the lock of an exchange, Rendezvous the interleavings, Rt the process callback
--     of the 64-bit side, Calls, PortCalls and Life the unix calls, Pump the thread of the 32-bit side,
--     Proxy and Front its audio.h, PortList the list of port names on the wire, Interface the calls of
--     audio.h made of the client and through the bridge.
--   Panel: the dialog of src/control_panel.c and, in Launch, src/panel_launch.c.
--   Gui: the settings application. Toolkit has what it relies on of Qt's combo boxes and texts, Dialog
--     the form of gui/SettingsDialog.cpp, Choice how it shows a value; Hash has the laws of QHash, Node
--     and Graph are gui/GraphModel.cpp, Watcher gui/PipeWireGraph.cpp with the proxies that it holds,
--     Monitor gui/PipeWireMonitor.cpp, Histogram gui/LoadHistogram.cpp.
--   Regsvr: src/regsvr.c, with a registry key as its path and the open handles counted.
--   The other modules of each part hold what is proved of it, Tests the concrete inputs.
--
-- What lies outside of the repository is given to the operations as an argument: PipeWire's answers
-- and events, the allocator, the file system, the scheduler, the environment, and what the host's
-- callback makes of the callback buffer. Integers are native numbers with C's wrap-around written
-- out; `int` and `LONG` are integers in a range. Four loops run on fuel: the loader's loop gets as many
-- rounds as the file has bytes, which is enough since each round reads one at least, the wait for
-- the port ids has the 20 attempts of the code, the carry of the bridge's deadline has the rounds
-- that its nanoseconds need, and the ten sizes of the dialog need ten rounds.
--
-- Outside of the bridge's exchange and the watcher's context operations are sequential: locks,
-- atomics and the data thread's timing are not modelled, nor are logging, the windows of the
-- control panel, and of the settings application the layout and the painting. Qt's boxes and
-- tables are records of operations with the laws that are documented of them, the Windows
-- registry is a record of operations alone, of which nothing is assumed. The callback for a new
-- buffer size is a list, kept in the client, of the sizes that it was called with. In the bridge
-- a pointer is a value that names a context or a port; a handle that stands for the wrong kind of
-- thing gives a status of its own, since C leaves that undefined.
mod Prelude
pub mod Config
pub mod Buffer
pub mod Audio
pub mod Driver
pub mod Bridge
pub mod Panel
pub mod Gui
pub mod Regsvr
mod Tests
