-- ===== src/File/Data.antt =====
-- AsmDataEntry of m2c/asm_file.py: the parts of a symbol's data, and how AsmFile appends to them.
use m2c.Prelude.{
  ℕ, zero, suc, ◌+◌, ◌-◌, Bool, true, false, not, ◌&&◌, Option, none, some, List, [], ◌∷◌, ◌++◌,
  length, take, drop, nat_eq, nat_beq, ltb, leb, if◌then◌else◌, Outcome, ok, raised, ◌>>=◌, ◌>>◌,
  assert,
}
use m2c.Asm.{Argument}
pub mod Sizes
pub mod ReadBack

-- `Union[bytes, AsmSymbolicData]`.
pub data Part : Type 0 where
  raw : List ℕ → Part
  symbolic : Argument → ℕ → Part

-- `sort_order` and `used_as_literal` are left out: no operation below reads them.
pub record AsmDataEntry : Type 0 where
  pub data_parts : List Part
  pub is_string : Bool
  pub is_readonly : Bool
  pub is_bss : Bool
  pub is_text : Bool
  pub is_jtbl : Bool

abbrev pub part_size : Part → ℕ
part_size (raw bytes) = length bytes
part_size (symbolic a size) = size

abbrev pub total_size : List Part → ℕ
total_size [] = 0
total_size (p ∷ parts) = part_size p + total_size parts

abbrev pub leading_zeros : List ℕ → ℕ
leading_zeros [] = 0
leading_zeros (b ∷ bytes) = let more = leading_zeros bytes in if nat_beq b 0 then suc more else 0

abbrev pub reverse_bytes : List ℕ → List ℕ → List ℕ
reverse_bytes [] done = done
reverse_bytes (b ∷ bytes) done = reverse_bytes bytes (b ∷ done)

abbrev pub min_15 : ℕ → ℕ
min_15 n = if leb n 15 then n else 15

-- The zeros at the end of a last part that is bytes; the part before has to be symbolic.
unfoldable pub padding_size : List Part → Outcome ℕ
padding_size [] = ok 0
padding_size (raw bytes ∷ []) = ok (leading_zeros (reverse_bytes bytes []))
padding_size (symbolic a size ∷ []) = ok 0
padding_size (raw before ∷ raw bytes ∷ []) = raised
padding_size (p ∷ q ∷ parts) = padding_size (q ∷ parts)

-- The size without the padding, which is at least 1 unless there is no data.
abbrev pub min_size : ℕ → ℕ → ℕ
min_size max_size padding =
    if nat_beq max_size padding && not (nat_beq max_size 0) then 1 else max_size - padding

unfoldable pub size_range_bytes : AsmDataEntry → Outcome (ℕ × ℕ)
size_range_bytes ent = padding_size ent.data_parts >>= λ padding.
    assert (leb (min_15 padding) (total_size ent.data_parts))
    >> ok (min_size (total_size ent.data_parts) (min_15 padding), total_size ent.data_parts)

-- A slice of a part at an offset in it, if it has the size that is asked for.
abbrev pub slice : Part → ℕ → ℕ → Option Part
slice (raw bytes) offset size =
    if nat_beq (length (take size (drop offset bytes))) size
    then some (raw (take size (drop offset bytes)))
    else none
slice (symbolic a own) offset size = if nat_beq own size then some (symbolic a own) else none

unfoldable pub data_at_offset : List Part → ℕ → ℕ → Option Part
data_at_offset [] offset size = none
data_at_offset (p ∷ parts) offset size =
    let later = data_at_offset parts (offset - part_size p) size in
    if leb (part_size p) offset then later else slice p offset size

-- `data[-1] += bytes`, or a part of its own.
unfoldable pub push_bytes : List ℕ → List Part → List Part
push_bytes bytes [] = raw bytes ∷ []
push_bytes bytes (raw before ∷ []) = raw (before ++ bytes) ∷ []
push_bytes bytes (symbolic a size ∷ []) = symbolic a size ∷ raw bytes ∷ []
push_bytes bytes (p ∷ q ∷ parts) = p ∷ push_bytes bytes (q ∷ parts)

abbrev has_no_parts : List Part → Bool
has_no_parts [] = true
has_no_parts (p ∷ parts) = false

-- AsmFile.new_data_bytes on `current_data`.
abbrev pub new_data_bytes : List ℕ → Bool → Option AsmDataEntry → Option AsmDataEntry
new_data_bytes bytes is_string none = none
new_data_bytes bytes is_string (some ent) = some (record {
  data_parts = push_bytes bytes ent.data_parts;
  is_string = if has_no_parts ent.data_parts && is_string then true else ent.is_string;
  is_readonly = ent.is_readonly;
  is_bss = ent.is_bss;
  is_text = ent.is_text;
  is_jtbl = ent.is_jtbl;
})

abbrev pub push_symbolic : Argument → ℕ → List Part → List Part
push_symbolic a size parts = parts ++ symbolic a size ∷ []

-- What AsmFile appends to the data of a symbol, from its label on.
pub data Append : Type 0 where
  add_bytes : List ℕ → Append
  add_symbolic : Argument → ℕ → Append

abbrev pub append_one : Append → List Part → List Part
append_one (add_bytes bytes) parts = push_bytes bytes parts
append_one (add_symbolic a size) parts = push_symbolic a size parts

unfoldable pub append_all : List Append → List Part → List Part
append_all [] parts = parts
append_all (one ∷ more) parts = append_all more (append_one one parts)
