-- ===== src/Examples/Data.antt =====
-- AsmDataEntry of m2c/asm_file.py on small entries.
use m2c.Prelude.{ℕ, ◌+◌, ◌≤◌, ◌<◌, ◌≡◌, refl, false, List, [], ◌∷◌, ltb→lt, some, ok}
use m2c.Asm.{global_symbol}
use m2c.File.Data.{
  raw, symbolic, AsmDataEntry, padding_size, total_size, size_range_bytes, data_at_offset,
  push_bytes, Append, add_bytes, add_symbolic, append_all,
}
use m2c.File.Data.Sizes.{size_range_bytes-append_all}
use m2c.File.Data.ReadBack.{data_at_offset-push_bytes}

abbrev table : List Append
table =
    add_bytes (1 ∷ 2 ∷ [])
    ∷ add_symbolic (global_symbol "f") 4
    ∷ add_bytes (3 ∷ [])
    ∷ add_bytes (0 ∷ 0 ∷ [])
    ∷ []

abbrev table_entry : AsmDataEntry
table_entry = record {
  data_parts = raw (1 ∷ 2 ∷ []) ∷ symbolic (global_symbol "f") 4 ∷ raw (3 ∷ 0 ∷ 0 ∷ []) ∷ [];
  is_string = false;
  is_readonly = false;
  is_bss = false;
  is_text = false;
  is_jtbl = false;
}

table_built : table_entry.data_parts ≡ append_all table []
unfolding append_all push_bytes
table_built = refl

table_sizes : size_range_bytes table_entry ≡ ok (7, 9)
unfolding size_range_bytes padding_size
table_sizes = refl

symbol_found : data_at_offset (table_entry.data_parts) 2 4 ≡ some (symbolic (global_symbol "f") 4)
unfolding data_at_offset
symbol_found = refl

size_range_bytes-append_all_example :
    (least : ℕ) × (size_range_bytes table_entry ≡ ok (least, total_size table_entry.data_parts))
    × (least ≤ total_size table_entry.data_parts)
    × (total_size table_entry.data_parts ≤ least + 15)
    × (0 < total_size table_entry.data_parts → 0 < least)
size_range_bytes-append_all_example = size_range_bytes-append_all table_entry table table_built

data_at_offset-push_bytes_example :
    data_at_offset
      (push_bytes (8 ∷ 9 ∷ []) table_entry.data_parts)
      (total_size table_entry.data_parts)
      2
    ≡ some (raw (8 ∷ 9 ∷ []))
data_at_offset-push_bytes_example =
    data_at_offset-push_bytes (8 ∷ 9 ∷ []) table_entry.data_parts (ltb→lt 0 2 refl)
