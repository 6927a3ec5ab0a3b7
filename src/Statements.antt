-- ===== src/Statements.antt =====
-- src/statements/: bank and card statements, from the amounts of the extracted text to the filing.
mod Money
mod Tables
mod Normalize
mod Import
mod Review
mod Filing
mod Filed
mod Balance
mod Imported
mod Written
mod Reread
mod Keeps
mod ImportKeeps
mod ReviewKeeps
mod Steps
mod Again
mod Tests
