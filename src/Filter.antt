-- ===== src/Filter.antt =====
-- internal/filter: the filter language of the list endpoints. A filter is a list of tokens; Walk folds it
-- over any query type.
pub mod Walk
pub mod Sql
pub mod Match
mod Folds
pub mod Laws
pub mod Tests
