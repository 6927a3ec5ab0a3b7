-- ===== src/Mapping.antt =====
-- src/mapping/tax.ts and src/mapping/dimensions.ts: what must hold of the tax and of the dimensions
-- of a proposal before anything is written to the books.
pub mod Amount
pub mod Tax
mod Taxed
pub mod Dimension
pub mod Carry
mod Tests
