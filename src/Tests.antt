-- ===== src/Tests.antt =====
-- A small crawl, and the theorems at its states.
mod Data
mod Run
mod Crawl
mod Parts
mod Files
mod Peers
mod Made
mod Probe
mod Program
mod Preimages
