-- ===== src/Tests.antt =====
-- Runs of the modelled code on concrete inputs, and the instances of the theorems.
mod SendQueue
mod Text
mod LineReader
mod Wire
mod Unread
mod Rate
mod Roles
mod Safety
mod Outbox
mod GroupFile
mod Calls
mod FileNames
mod Transfers
mod Json
