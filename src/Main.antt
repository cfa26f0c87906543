-- ===== src/Main.antt =====
-- main.go: how the parts are put together.
pub mod Probe
pub mod Crawl
pub mod Binds
pub mod Wires
pub mod Panics
pub mod Tests
