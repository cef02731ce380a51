-- ===== src/Tests.antt =====
-- The theorems applied at concrete tables, files and messages.
mod Data
mod Tables
mod Files
mod Messages
mod Sharing
mod Transfers
mod Networks
mod Workers
mod Threads
mod Races
mod Newcomers
mod Screens
mod Downloads
mod Starts
mod Inputs
mod Displays
