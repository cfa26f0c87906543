-- ===== src/Discovery.antt =====
-- discovery/discovery.go: the peers that the crawl and the bootstrap file bring in.
pub mod Filters
pub mod CrawlFile
pub mod Loop
pub mod Routed
pub mod Once
pub mod Bootstrap
pub mod Start
pub mod Addresses
pub mod Tests
