-- ===== src/Asm.antt =====
-- m2c/asm_instruction.py and the data of m2c/instruction.py and m2c/asm_file.py: registers,
-- arguments, instructions and labels, as the assembly layer passes them around.
pub mod Fold
pub mod Literal
use m2c.Prelude.{
  ℕ, ◌≡◌, refl, ◌↔◌, Bool, true, false, ◌&&◌, Option, none, some, List, [], ◌∷◌, ◌++◌, String, Eq,
  ◌==◌, option_beq, string_eq, arith,
}
use m2c.Prelude.Int.{ℤ, int_eq}

pub record Register : Type 0 where
  pub register_name : String

pub data Writeback : Type 0 where
  pre post : Writeback

-- `section_symbol` is AsmSectionGlobalSymbol, the subclass of AsmGlobalSymbol that also knows its
-- section and addend.
pub data Argument : Type 0 where
  register : Register → Argument
  register_list : List Register → Argument
  global_symbol : String → Argument
  section_symbol : String → String → ℤ → Argument
  address_mode : Register → Argument → Option Writeback → Argument
  macro : String → Argument → Argument
  literal : ℤ → Argument
  bin_op : String → Argument → Argument → Argument

-- `arg.symbol_name` where `isinstance(arg, AsmGlobalSymbol)`, the subclass included.
abbrev pub symbol_name? : Argument → Option String
symbol_name? (global_symbol s) = some s
symbol_name? (section_symbol s _ _) = some s
symbol_name? _ = none

pub record AsmInstruction : Type 0 where
  pub mnemonic : String
  pub args : List Argument

-- A label, which may have several names; the program keeps at least one.
pub record Label : Type 0 where
  pub names : List String

pub record StackLocation : Type 0 where
  pub offset : ℤ
  pub symbolic_offset : Option String

pub data Location : Type 0 where
  reg : Register → Location
  stack : StackLocation → Location

pub record InstructionMeta : Type 0 where
  pub emit_goto : Bool
  pub filename : String
  pub lineno : ℕ
  pub synthetic : Bool

pub data JumpDest : Type 0 where
  target : String → JumpDest
  by_register : Register → JumpDest
  table : List String → JumpDest

-- An evaluated instruction but for `eval_fn`, a closure that only the translation phase calls.
pub record Instruction : Type 0 where
  pub mnemonic : String
  pub args : List Argument
  pub meta : InstructionMeta
  pub inputs : List Location
  pub clobbers : List Location
  pub outputs : List Location
  pub jump_target : Option JumpDest
  pub function_target : Option Argument
  pub is_conditional : Bool
  pub is_return : Bool
  pub is_load : Bool
  pub is_store : Bool
  pub is_effectful : Bool
  pub has_delay_slot : Bool
  pub is_branch_likely : Bool
  pub in_pattern : Bool

pub data BodyPart : Type 0 where
  instr : Instruction → BodyPart
  label : Label → BodyPart

-- Equality of the frozen dataclasses is field by field.
abbrev pub register_beq : Register → Register → Bool
register_beq a b = a.register_name == b.register_name

pub register_beq_iff : (a b : Register) → (register_beq a b ≡ true) ↔ (a ≡ b)
register_beq_iff a b = ground (arith, string_eq.same_iff a.register_name b.register_name)

instance abbrev pub register_eq : Eq Register
register_eq = record { same = register_beq; same_iff = register_beq_iff }

offset_beq_iff : (a b : Option String) → (option_beq string_eq.same a b ≡ true) ↔ (a ≡ b)
offset_beq_iff none none = ground arith
offset_beq_iff none (some b) = ground arith
offset_beq_iff (some a) none = ground arith
offset_beq_iff (some a) (some b) = ground (arith, string_eq.same_iff a b)

abbrev pub stack_beq : StackLocation → StackLocation → Bool
stack_beq a b =
    a.offset == b.offset && option_beq string_eq.same a.symbolic_offset b.symbolic_offset

stack_beq_iff : (a b : StackLocation) → (stack_beq a b ≡ true) ↔ (a ≡ b)
stack_beq_iff a b =
    ground
      (arith, int_eq.same_iff a.offset b.offset, offset_beq_iff a.symbolic_offset b.symbolic_offset)

abbrev pub location_beq : Location → Location → Bool
location_beq (reg a) (reg b) = register_beq a b
location_beq (stack a) (stack b) = stack_beq a b
location_beq _ _ = false

pub location_beq_iff : (a b : Location) → (location_beq a b ≡ true) ↔ (a ≡ b)
location_beq_iff (reg a) (reg b) = ground (arith, register_beq_iff a b)
location_beq_iff (stack a) (stack b) = ground (arith, stack_beq_iff a b)
location_beq_iff (reg a) (stack b) = ground arith
location_beq_iff (stack a) (reg b) = ground arith

instance abbrev pub location_eq : Eq Location
location_eq = record { same = location_beq; same_iff = location_beq_iff }
