-- ===== src/File/Data/Sizes.antt =====
-- The sizes of an AsmDataEntry of m2c/asm_file.py.
use m2c.Prelude.{
  ℕ, ◌+◌, ◌≤◌, ◌<◌, ◌≡◌, refl, sym, subst, Bool, true, false, List, [], ◌∷◌, length, nat_eq, leb,
  ok, arith,
}
use m2c.Asm.{Argument}
use m2c.File.Data.{
  Part, raw, symbolic, AsmDataEntry, total_size, leading_zeros, reverse_bytes, min_15, padding_size,
  min_size, size_range_bytes, push_bytes, push_symbolic, Append, add_bytes, add_symbolic,
  append_one, append_all,
}

-- No two parts of bytes stand side by side.
unfoldable pub is_merged : List Part → Bool
is_merged [] = true
is_merged (p ∷ []) = true
is_merged (raw a ∷ raw b ∷ parts) = false
is_merged (raw a ∷ symbolic b size ∷ parts) = is_merged (symbolic b size ∷ parts)
is_merged (symbolic a size ∷ q ∷ parts) = is_merged (q ∷ parts)

leading_zeros-length : (bytes : List ℕ) → leading_zeros bytes ≤ length bytes
leading_zeros-length [] = omega arith
leading_zeros-length (b ∷ bytes) = let ih = leading_zeros-length bytes in ground arith

length-reverse_bytes :
    (bytes done : List ℕ) → length (reverse_bytes bytes done) ≡ length bytes + length done
length-reverse_bytes [] done = omega arith
length-reverse_bytes (b ∷ bytes) done =
    let ih = length-reverse_bytes bytes (b ∷ done) in omega (arith, ih)

padding_size-is_merged :
    (parts : List Part)
    → is_merged parts ≡ true
    → (n : ℕ) × (padding_size parts ≡ ok n) × (n ≤ total_size parts)
unfolding is_merged padding_size
padding_size-is_merged [] h = (0, refl, omega arith)
padding_size-is_merged (raw bytes ∷ []) h =
    let zeros = leading_zeros-length (reverse_bytes bytes []) in
    let total = length-reverse_bytes bytes [] in
    (leading_zeros (reverse_bytes bytes []), refl, omega (arith, zeros, total))
padding_size-is_merged (symbolic a size ∷ []) h = (0, refl, omega arith)
padding_size-is_merged (raw a ∷ raw b ∷ parts) h = cc
padding_size-is_merged (raw a ∷ symbolic b size ∷ []) h = (0, refl, omega arith)
padding_size-is_merged (raw a ∷ symbolic b size ∷ q ∷ parts) h =
    let (n, e, l) = padding_size-is_merged (symbolic b size ∷ q ∷ parts) h in
    (n, e, omega (arith, l))
padding_size-is_merged (symbolic a size ∷ q ∷ parts) h =
    let (n, e, l) = padding_size-is_merged (q ∷ parts) h in (n, e, omega (arith, l))

min_size-bounds :
    (total padding : ℕ)
    → padding ≤ total
    → (min_size total (min_15 padding) ≤ total)
      × (total ≤ min_size total (min_15 padding) + 15)
      × (0 < total → 0 < min_size total (min_15 padding))
min_size-bounds total padding h = (ground arith, ground arith, λ p. ground arith)

-- Appending keeps parts of bytes apart.
push_bytes-is_merged :
    (bytes : List ℕ) (parts : List Part)
    → is_merged parts ≡ true
    → is_merged (push_bytes bytes parts) ≡ true
unfolding is_merged push_bytes
push_bytes-is_merged bytes [] h = refl
push_bytes-is_merged bytes (raw a ∷ []) h = refl
push_bytes-is_merged bytes (symbolic a size ∷ []) h = refl
push_bytes-is_merged bytes (raw a ∷ raw b ∷ parts) h = cc
push_bytes-is_merged bytes (raw a ∷ symbolic b size ∷ []) h = refl
push_bytes-is_merged bytes (raw a ∷ symbolic b size ∷ q ∷ parts) h =
    push_bytes-is_merged bytes (symbolic b size ∷ q ∷ parts) h
push_bytes-is_merged bytes (symbolic a size ∷ raw b ∷ []) h = refl
push_bytes-is_merged bytes (symbolic a size ∷ raw b ∷ q ∷ parts) h =
    push_bytes-is_merged bytes (raw b ∷ q ∷ parts) h
push_bytes-is_merged bytes (symbolic a size ∷ symbolic b size' ∷ []) h = refl
push_bytes-is_merged bytes (symbolic a size ∷ symbolic b size' ∷ q ∷ parts) h =
    push_bytes-is_merged bytes (symbolic b size' ∷ q ∷ parts) h

push_symbolic-is_merged :
    (a : Argument) (size : ℕ) (parts : List Part)
    → is_merged parts ≡ true
    → is_merged (push_symbolic a size parts) ≡ true
unfolding is_merged
push_symbolic-is_merged a size [] h = refl
push_symbolic-is_merged a size (raw b ∷ []) h = refl
push_symbolic-is_merged a size (symbolic b size' ∷ []) h = refl
push_symbolic-is_merged a size (raw b ∷ raw c ∷ parts) h = cc
push_symbolic-is_merged a size (raw b ∷ symbolic c size' ∷ parts) h =
    push_symbolic-is_merged a size (symbolic c size' ∷ parts) h
push_symbolic-is_merged a size (symbolic b size' ∷ q ∷ parts) h =
    push_symbolic-is_merged a size (q ∷ parts) h

append_one-is_merged :
    (one : Append) (parts : List Part)
    → is_merged parts ≡ true
    → is_merged (append_one one parts) ≡ true
append_one-is_merged (add_bytes bytes) parts h = push_bytes-is_merged bytes parts h
append_one-is_merged (add_symbolic a size) parts h = push_symbolic-is_merged a size parts h

append_all-is_merged :
    (appended : List Append) (parts : List Part)
    → is_merged parts ≡ true
    → is_merged (append_all appended parts) ≡ true
unfolding append_all
append_all-is_merged [] parts h = h
append_all-is_merged (one ∷ more) parts h =
    append_all-is_merged more (append_one one parts) (append_one-is_merged one parts h)

-- However bytes and symbolic data were appended to an empty entry, size_range_bytes passes its
-- assertions: the larger size is the sum of the parts, the smaller one is less by at most 15, and it is
-- positive if there is data.
pub size_range_bytes-append_all :
    (ent : AsmDataEntry) (appended : List Append)
    → ent.data_parts ≡ append_all appended []
    → (least : ℕ) × (size_range_bytes ent ≡ ok (least, total_size ent.data_parts))
      × (least ≤ total_size ent.data_parts)
      × (total_size ent.data_parts ≤ least + 15)
      × (0 < total_size ent.data_parts → 0 < least)
unfolding size_range_bytes
size_range_bytes-append_all ent appended built =
    let merged =
      subst (λ parts. is_merged parts ≡ true) (sym built)
        (append_all-is_merged appended [] (unfold is_merged in refl)) in
    let (n, e, l) = padding_size-is_merged ent.data_parts merged in
    let fits : leb (min_15 n) (total_size ent.data_parts) ≡ true = ground arith in
    let (below, above, positive) = min_size-bounds (total_size ent.data_parts) n l in
    (min_size (total_size ent.data_parts) (min_15 n), rw (e, fits) refl, below, above, positive)
