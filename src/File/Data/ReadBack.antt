-- ===== src/File/Data/ReadBack.antt =====
-- Data that is appended to an AsmDataEntry of m2c/asm_file.py reads back.
use m2c.Prelude.{
  ℕ, ◌+◌, ◌-◌, ◌<◌, ◌≡◌, refl, ◌∙◌, ap, true, false, none, some, List, [], ◌∷◌, ◌++◌, length, take,
  drop, length-append, nat_eq, nat_beq, leb, if◌then◌else◌, arith,
}
use m2c.File.Data.{Part, raw, symbolic, part_size, total_size, slice, data_at_offset, push_bytes}

data_at_offset-later :
    (p : Part) (parts : List Part) (offset size : ℕ)
    → data_at_offset (p ∷ parts) (part_size p + offset) size ≡ data_at_offset parts offset size
unfolding data_at_offset
data_at_offset-later p parts offset size =
    rw (reaches (part_size p) offset, back (part_size p) offset) refl
  where
    reaches : (n m : ℕ) → leb n (n + m) ≡ true
    reaches n m = ground arith

    back : (n m : ℕ) → n + m - n ≡ m
    back n m = omega arith

take-length : (bytes : List ℕ) → take (length bytes) bytes ≡ bytes
take-length [] = refl
take-length (b ∷ bytes) = ap (λ t. b ∷ t) (take-length bytes)

drop-append : (a b : List ℕ) → drop (length a) (a ++ b) ≡ b
drop-append [] b = refl
drop-append (x ∷ a) b = drop-append a b

-- The end of a part of bytes.
slice-append :
    (a b : List ℕ) (n : ℕ) → n ≡ length a → slice (raw (a ++ b)) n (length b) ≡ some (raw b)
slice-append a b n e =
    let whole =
      ap (λ k. take (length b) (drop k (a ++ b))) e
      ∙ ap (take (length b)) (drop-append a b)
      ∙ take-length b in
    ap (λ t. if nat_beq (length t) (length b) then some (raw t) else none) whole ∙ itself (length b)
  where
    itself : (n : ℕ) → (if nat_beq n n then some (raw b) else none) ≡ some (raw b)
    itself n = ground arith

data_at_offset-here :
    (p : Part) (parts : List Part) (offset size : ℕ)
    → offset < part_size p
    → data_at_offset (p ∷ parts) offset size ≡ slice p offset size
unfolding data_at_offset
data_at_offset-here p parts offset size h = rw (not_reached (part_size p) offset h) refl
  where
    not_reached : (n m : ℕ) → m < n → leb n m ≡ false
    not_reached n m h = ground arith

last_bytes :
    (a b : List ℕ) (offset : ℕ)
    → 0 < length b
    → offset ≡ length a
    → data_at_offset (raw (a ++ b) ∷ []) offset (length b) ≡ some (raw b)
last_bytes a b offset h e =
    data_at_offset-here (raw (a ++ b)) [] offset (length b) (omega (arith, length-append a b))
    ∙ slice-append a b offset e

-- Bytes that are appended, if there are any, are found at the offset where the data ended, whether they
-- went into the last part or make a part of their own.
pub data_at_offset-push_bytes :
    (bytes : List ℕ) (parts : List Part)
    → 0 < length bytes
    → data_at_offset (push_bytes bytes parts) (total_size parts) (length bytes) ≡ some (raw bytes)
unfolding push_bytes
data_at_offset-push_bytes bytes [] h = last_bytes [] bytes 0 h refl
data_at_offset-push_bytes bytes (raw a ∷ []) h = last_bytes a bytes (length a + 0) h (omega arith)
data_at_offset-push_bytes bytes (symbolic a size ∷ []) h =
    data_at_offset-later (symbolic a size) (raw bytes ∷ []) 0 (length bytes)
    ∙ last_bytes [] bytes 0 h refl
data_at_offset-push_bytes bytes (raw a ∷ q ∷ parts) h =
    data_at_offset-later (raw a) (push_bytes bytes (q ∷ parts)) (total_size (q ∷ parts))
      (length bytes)
    ∙ data_at_offset-push_bytes bytes (q ∷ parts) h
data_at_offset-push_bytes bytes (symbolic a size ∷ q ∷ parts) h =
    data_at_offset-later (symbolic a size) (push_bytes bytes (q ∷ parts)) (total_size (q ∷ parts))
      (length bytes)
    ∙ data_at_offset-push_bytes bytes (q ∷ parts) h
