-- ===== src/Tests.antt =====
-- Runs of the model at concrete inputs, and the theorems applied to them.
mod Numbers
mod Tables
mod BitVectors
mod Expressions
mod Files
mod Values
mod Orders
mod Cycles
mod Sets
mod Paths
mod Maps
mod Compression
