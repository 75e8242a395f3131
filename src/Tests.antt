-- ===== src/Tests.antt =====
-- Runs of the model at concrete inputs.
mod Memory
mod Transactions
mod Encodings
mod Statements
mod Structures
mod Btree
mod Pages
