-- ===== src/GeoIp.antt =====
-- pkg/geoip/geoip.go: the location of an address.
pub mod Defs
pub mod Batch
pub mod Cached
pub mod Replies
pub mod Database
pub mod Download
mod Tests
