-- ===== src/Gui.antt =====
-- gui/: the settings panel, a Qt program of its own around the driver's configuration file.
pub mod Toolkit
pub mod Choice
pub mod Dialog
pub mod Showing
pub mod Built
pub mod Selection
pub mod Unsaved
pub mod Applying
pub mod Hash
pub mod Node
pub mod Graph
pub mod Peers
pub mod Watcher
pub mod Proxies
pub mod Lifetime
pub mod Histogram
pub mod Monitor
