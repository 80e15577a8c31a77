-- ===== src/Sql.antt =====
-- agperms/src/agperms/storage/sql.py: `SqlStorage`. SQLAlchemy and the database are a parameter, one
-- table at a time: Sql.Table. Sql.Records has the rows whose columns differ from the fields, Sql.Store
-- the methods, and the other modules compare them with the memory storage.
pub mod Table
pub mod Records
pub mod Store
pub mod Refines
pub mod Tokens
pub mod Work
pub mod Reads
pub mod Revocations
pub mod Walk
pub mod Runs
