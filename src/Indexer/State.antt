-- ===== src/Indexer/State.antt =====
-- The store that the projections write, and programs over it.
-- A table is the function from a unique key to the row that Prisma finds under it. Ids that the
-- database makes up are numbered in the order of creation, so the ids `goal_<userId>`,
-- `sub_<tipperId>_<creatorId>` and `credit_history_<userId>_<ledger>` are those numbers.
-- Every call of the database may fail: `faults` says of each coming call whether it does.
pub mod Store
unfoldable pub use Store.*
