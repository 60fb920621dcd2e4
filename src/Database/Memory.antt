-- ===== src/Database/Memory.antt =====
-- A table in memory that meets the laws of `Database`: its rows in a list, with the primary key and the
-- unique index on `idempotency_key` as invariants. The concrete runs of the tests go by it.
mod Sorting
mod Rows
mod Queries
mod Instance
pub use Queries.{Table, empty_table}
pub use Instance.{memory}
use Sorting.{sort_rows}
use Rows.{find_row, find_key, update_row}

-- A test that runs on the table unfolds this name.
unfoldable pub statements : Unit {0}
unfolding sort_rows find_row find_key update_row
statements = tt
