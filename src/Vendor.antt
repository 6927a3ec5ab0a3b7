-- ===== src/Vendor.antt =====
-- src/mapping/resolve.ts: which vendor, account and kind of transaction a document is mapped to.
mod Distance
mod Resolve
mod Unambiguous
mod Tests
