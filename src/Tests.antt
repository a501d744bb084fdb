-- ===== src/Tests.antt =====
-- Runs of the theorems on concrete sessions, queues, buffers and tables.
mod Network
mod Ppp
mod Messages
mod Data
mod Session
mod Handler
mod Queue
mod Bytes
mod Tables
mod Routes
mod Association
mod Names
mod Topics
mod Tree
