-- ===== src/Tests.antt =====
-- Runs of the theorems at concrete inputs, and the instances of the parameters that they need.
mod Objects
mod Instances
mod Alarms
mod Playing
mod Devices
mod Settings
mod Media
mod Feeds
mod Restarts
mod Lists
mod Polling
mod Whole
mod Hardware
mod Requests
mod Watching
mod Scans
