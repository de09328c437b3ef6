-- ===== src/Listing.antt =====
-- The loop that the listing handlers of ghidra_rpc/server/tools share: it counts the items that
-- pass a test, and collects a row for each of the first ones up to a limit.
pub mod Collect
use ghidra_rpc_win.Common.{ℕ, ◌+◌, Bool, List, [], ◌∷◌, ◌++◌, ltb, if◌then◌else◌, length}

pub record Page (Row : Type 0) : Type 0 where
  pub rows : List Row
  pub count : ℕ
  pub total : ℕ

module _ {A Row : Type 0} (passes : A → Bool) (row : A → Row) (limit : ℕ) where
  abbrev add_row : A → List Row → List Row
  add_row a rows = if ltb (length rows) limit then rows ++ row a ∷ [] else rows

  -- The items that are left, the rows that have been collected, and the count.
  unfoldable pub collect : List A → List Row → ℕ → Page Row
  collect [] rows total = record { rows = rows; count = length rows; total = total }
  collect (a ∷ items) rows total =
      let taken = collect items (add_row a rows) (total + 1) in
      let skipped = collect items rows total in if passes a then taken else skipped

  unfoldable pub page : List A → Page Row
  unfolding collect
  page items = collect items [] 0
