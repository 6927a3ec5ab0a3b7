-- ===== src/WriteGate.antt =====
-- src/accounting/write-gates.ts: the owner's gate before anything is written to a company's books.
mod Gate
mod Confirmed
mod Tests
