-- ===== src/Examples/File.antt =====
-- The preprocessor of m2c/asm_file.py on small inputs.
use m2c.Prelude.{
  false, ◌≡◌, refl, true, none, some, List, [], ◌∷◌, String, ok, raised, ◌>>=◌, string_eq,
}
use m2c.Prelude.Dict.{lookup, insert}
use m2c.Prelude.Int.{pos, ◌+ℤ◌, ◌-ℤ◌}
use m2c.Asm.{literal}
use m2c.File.{Preproc, define_of, check_ifdef}
use m2c.File.Condition.{
  split_word, tokenize, digits_value, int_0, parse1, parse2, and_loop, parse3, or_loop, eval_tokens,
  eval_cpp_if,
}
use m2c.File.Condition.Truth.{
  number, macro, defined, negation, one, and_also, Any, only, or_else, write_any,
}
use m2c.File.Condition.Numeral.{d0, hex_number, digits_text}
use m2c.File.Condition.Tokens.{put, spaced}
use m2c.File.Condition.Text.{text_of}
use m2c.Prelude.Text.{codes}
use m2c.File.Ascii.{
  ret_bytes, decomp_failure, encode_error, read_hex, read_octal, loop, loop_escape,
  parse_ascii_directive,
}
use m2c.File.Ascii.Quoted.{
  write_parts, quote_bytes, all_bytes, are_bytes, joined, parse_ascii_directive-write_parts,
}
use m2c.File.Levels.{elifdef, else_branch, classify, Line, Levels, step, run}
use m2c.File.Levels.Groups.{Balanced, nothing, plain, closed, next, run-Balanced}
use m2c.File.Levels.Groups
use m2c.File.Levels.Branches.{waiting, in_group, choose, run_alternatives, run_alternatives-choose}

abbrev defines_a : Preproc
defines_a = record { defines = ("A", some (literal (pos 3))) ∷ []; warnings = [] }

-- defined(A) && !B || 0x0
abbrev condition : Any
condition =
    or_else (and_also (defined "A") (one (negation (macro "B"))))
      (only (one (number (hex_number d0 []))))

condition_text : tokenize 100 "defined(A) && !B||0x0" ≡ write_any condition
unfolding tokenize split_word write_any digits_text
condition_text = refl

condition_written : text_of condition ≡ "defined ( A ) && ! B || 0x0 "
unfolding spaced put write_any digits_text
condition_written = refl

unset_read_false :
    eval_cpp_if "#if" 100 "(A && B) || 0b1_1"
      (record { defines = ("A", some (literal (pos 3))) ∷ ("B", none) ∷ []; warnings = [] })
    ≡ ok
        (true, record { defines = ("A", some (literal (pos 3))) ∷ ("B", none) ∷ []; warnings = [] })
unfolding tokenize split_word digits_value int_0 parse1 parse2 and_loop parse3 or_loop eval_tokens
    eval_cpp_if define_of check_ifdef lookup insert
unset_read_false = refl

leading_zero_fails : eval_cpp_if "#if" 100 "A || 010" defines_a ≡ raised
unfolding tokenize split_word digits_value int_0 parse1 parse2 and_loop parse3 or_loop eval_tokens
    eval_cpp_if define_of check_ifdef lookup insert
leading_zero_fails = refl

abbrev line : String → String → Line
line word args = record { directive = word; args_str = args; words = args ∷ [] }

-- #ifdef A, a line, #else, #endif.
abbrev whole_group : List Line
whole_group = line "#ifdef" "A" ∷ line ".word" "1" ∷ line "#else" "" ∷ line ".endif" "" ∷ []

whole_group-Balanced : Balanced whole_group
unfolding classify
whole_group-Balanced =
    Groups.group {body = line ".word" "1" ∷ []} refl (plain refl nothing)
      (next {body = []} {a = else_branch} refl nothing (closed refl nothing))

abbrev outside : Levels
outside = record { preproc = defines_a; ifdef_level = pos 1; ifdef_levels = 1 ∷ [] }

group_runs : run whole_group outside ≡ ok outside
unfolding run step classify check_ifdef lookup ◌+ℤ◌ ◌-ℤ◌
group_runs = refl

run-Balanced_example :
    (outside.ifdef_levels ≡ outside.ifdef_levels) × (outside.ifdef_level ≡ outside.ifdef_level)
run-Balanced_example = run-Balanced whole_group-Balanced outside outside group_runs

run_alternatives-choose_example :
    run_alternatives
      ((elifdef, line "#elifdef" "A") ∷ (else_branch, line "#else" "") ∷ [])
      (in_group (pos 0) [] (waiting, defines_a))
    ≡ (choose
          ((elifdef, line "#elifdef" "A") ∷ (else_branch, line "#else" "") ∷ [])
          waiting
          defines_a
        >>= λ r. ok (in_group (pos 0) [] r))
run_alternatives-choose_example =
    run_alternatives-choose ((elifdef, line "#elifdef" "A") ∷ (else_branch, line "#else" "") ∷ [])
      waiting (pos 0) [] defines_a

-- An escape of each kind: a letter, hexadecimal and octal.
escapes_read :
    parse_ascii_directive (codes "\"a\\n\\x41g\\1018\"") true
    ≡ ret_bytes (b'a' ∷ 10 ∷ b'A' ∷ b'g' ∷ b'A' ∷ b'8' ∷ 0 ∷ [])
unfolding parse_ascii_directive loop loop_escape read_hex read_octal lookup
escapes_read = refl

unterminated_fails : parse_ascii_directive (codes "\"a") false ≡ decomp_failure
unfolding parse_ascii_directive loop
unterminated_fails = refl

backslash_at_end_fails : parse_ascii_directive (codes "\"a\\") false ≡ decomp_failure
unfolding parse_ascii_directive loop loop_escape
backslash_at_end_fails = refl

-- A surrogate cannot be encoded.
surrogate_fails : parse_ascii_directive (b'"' ∷ 0xd800 ∷ b'"' ∷ []) false ≡ encode_error
unfolding parse_ascii_directive loop
surrogate_fails = refl

two_parts_written :
    write_parts ((b'"' ∷ 7 ∷ []) ∷ (b'a' ∷ []) ∷ []) ≡ codes "\"\\\"\\007\", \"a\", "
unfolding write_parts quote_bytes
two_parts_written = refl

two_parts-AreBytes : all_bytes ((b'"' ∷ 255 ∷ []) ∷ (b'a' ∷ []) ∷ []) ≡ true
unfolding all_bytes are_bytes
two_parts-AreBytes = refl

parse_ascii_directive-write_parts_example :
    parse_ascii_directive (write_parts ((b'"' ∷ 255 ∷ []) ∷ (b'a' ∷ []) ∷ [])) true
    ≡ ret_bytes (joined true ((b'"' ∷ 255 ∷ []) ∷ (b'a' ∷ []) ∷ []))
parse_ascii_directive-write_parts_example =
    parse_ascii_directive-write_parts (b'"' ∷ 255 ∷ []) ((b'a' ∷ []) ∷ []) true two_parts-AreBytes
