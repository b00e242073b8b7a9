-- ===== src/Tests.antt =====
-- Runs of the models on concrete input.
mod Errors
mod Plugin
mod Cache
mod Reader
mod Blob
mod Handle
mod Config
mod Mutation
mod Version
mod Evolution
mod Distributed
mod Maintenance
mod Stream
mod Index
mod Fts
mod Scan
mod Open
mod Write
mod Transaction
mod Hooks
