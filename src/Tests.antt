-- ===== src/Tests.antt =====
-- Runs at concrete inputs, and the theorems applied to them.
mod Pages
mod Forms
mod Counters
mod Ports
mod Routing
mod Reports
mod Monitors
mod Menus
mod Tables
mod Sessions
mod Lifecycles
mod Groups
mod Parsing
mod Entries
mod Managers
mod Versions
mod HttpGroups
mod Logins
mod WorkConns
mod Builds
mod Counts
mod Visitors
