-- ===== src/Tests.antt =====
-- Runs at concrete inputs, and the theorems at them.
mod Data
mod Access
mod Waiting
mod Forwarding
mod Handling
mod Configuring
mod Caching
mod Reporting
mod Scraping
mod Serving
mod Whole
mod Stopping
mod Starting
mod Changing
mod Sending
