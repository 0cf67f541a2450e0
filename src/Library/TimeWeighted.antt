-- ===== src/Library/TimeWeighted.antt =====
-- src/library/structs/tw.rs.
use abacus_protocol.Base.{ℕ, ◌%◌, wrapping_add, u32_mod}

-- `TW_INDEX_SIZE`, as the build without `build = "release"` has it.
abbrev pub tw_index_size : ℕ
tw_index_size = 60

-- `TwIndex::next` on the value of an index.
unfoldable pub next : ℕ → ℕ
next value = wrapping_add u32_mod value 1 % tw_index_size

pub record TwEntry : Type 0 where
  pub timestamp : ℕ
  pub accumulator : ℕ

-- `TwEntry::default`
abbrev pub default_entry : TwEntry
default_entry = record { timestamp = 0; accumulator = 0 }
