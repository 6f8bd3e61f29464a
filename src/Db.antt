-- ===== src/Db.antt =====
-- internal/db: the tables behind the repository. A table is the list of its rows. Whether the database
-- answers a statement is not the program's to decide: `down` says which statements fail.
pub mod State
pub mod Runs
pub mod Access
pub mod Guests
pub mod Tokens
pub mod Named
pub mod Instances
pub mod Keys
pub mod Activity
pub mod Frames
pub mod Listing
pub mod Rules
pub mod Tests
pub mod RemovalTests
