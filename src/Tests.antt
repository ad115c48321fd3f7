-- ===== src/Tests.antt =====
-- The theorems at concrete inputs.
mod Settings
mod Devices
mod Host
mod Bridge
mod Gui
mod Registration
mod Graph
