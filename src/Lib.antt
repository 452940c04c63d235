-- ===== src/Lib.antt =====
-- m2c, a decompiler from assembly to C.
--
-- The program reads an assembly file into functions, each a list of instructions and labels
-- (m2c/asm_file.py, m2c/asm_instruction.py, m2c/instruction.py). The flow-graph phase
-- (m2c/flow_graph.py) drops unused labels, rewrites known instruction sequences by the patterns of
-- the architecture (m2c/asm_pattern.py), cuts the body into basic blocks, links them to a graph,
-- computes dominators and loops, and records for each instruction where its inputs come from. The
-- later phases translate the blocks to expressions and emit if-statements, loops and switches
-- (m2c/translate.py, m2c/if_statements.py).
--
-- Files and code:
--   Prelude: what the modules share. Outcome is a Python call that returns, raises, or runs out of
--     the model's fuel; Dict is a dictionary as an association list; Int is Python's integers; Bits
--     is a number read as a set of bits; Text has the tests and the formatting on text.
--   Asm: the data of m2c/asm_instruction.py and m2c/instruction.py, and Label of m2c/asm_file.py.
--     Asm.Literal is AsmLiteral.as_s16 and as_s8; Asm.Fold is constant_fold.
--   Pattern: TryMatchState of m2c/asm_pattern.py. Pattern.Part is the pattern parts and match_one;
--     Pattern.Matcher is AsmMatcher.try_match; Pattern.Rewrite is AsmMatcher.apply, derived_meta and
--     simplify_patterns. Below them, Extends, Instance, Sound, Parts and Segment are about matching,
--     Clobbers about what apply writes, Loop about simplify_patterns.
--   Flow: m2c/flow_graph.py. RefSet and LocationRefs are the classes RefSet and LocationRefSetDict;
--     Uses is instr_inputs and instr_uses of FlowGraph with add_instruction_use and
--     clear_instruction_inputs; Labels is minimize_labels; Blocks is Block, BlockBuilder and
--     build_blocks; Dominators is the fixed point of compute_relations; Reach is
--     inv_reachable_without; Clobbered is locs_clobbered_until_dominator; Phi is phi_loc_sources.
--   Bounds: the class Bounds of m2c/if_statements.py.
--   Demangle: m2c/demangle_codewarrior.py, a parser of mangled C++ symbols. Demangle.Parse is the
--     `parse` methods of CxxName, CxxTerm, CxxType and CxxSymbol, Demangle.Print their `__str__` and
--     demangle, Demangle.Cases the test cases of the file. Demangle.Mangle is the mangling scheme
--     written as a printer; Digits, Starts, Steps, Reads, RoundTrip, Symbol and SymbolRoundTrip lead
--     to the round trips; Escapes, Fits, Leaves, Total and Printing to the outcomes; Constructors is on
--     "__ct" and "__dt".
--   File: m2c/asm_file.py. File.Condition is eval_cpp_if with its tokenizer; its Truth and Numeral are
--     what a condition means, Tokens and Text are about its text. File.Levels is the
--     conditional directives of parse_file, with `ifdef_level` and `ifdef_levels`; Groups and Branches
--     are about groups of them. File.Ascii is parse_ascii_directive, with its round trip in Quoted and
--     its failures in Ends. File.Data is AsmDataEntry with the parts that AsmFile appends.
--   Examples: tests on concrete inputs, and the theorems at such inputs.
--
-- State. A mutable object is a record that the operations take and return: TryMatchState with its
-- dictionaries of bound registers, symbols, literals and labels; AsmMatcher with its output and
-- index; UseGraph; BlockBuilder, with `cond_return_target` beside it in Building. A Python set is a
-- list, read through `contains`, and so is a RefSet, which the source keeps as a list too. An
-- exception or a failed assertion is `raised`, but for parse_ascii_directive, whose failures are told
-- apart. A graph node is its index in `nodes`, and the sets of compute_dominators are numbers with one
-- bit for each node, as in the source. In the two `defaultdict`s a missing key and an empty entry are
-- not told apart.
--
-- Fuel. constant_fold takes the number of nested calls that it may make: enough is the size of the
-- argument with its defines expanded, which is finite where the defines are ranked. The loop of
-- simplify_patterns for one pattern has one round more than the body has parts, which is enough
-- where each replacement consumes a part, since each round then moves the index. compute_dominators
-- takes a number of rounds: each round but the last lowers the sum of the sets read as numbers,
-- which starts at most at nnodes * 2 ** nnodes. inv_reachable_without takes one round for each node
-- that it pops: a node is expanded once, so nodes, edges and two rounds more are enough; so do the
-- other two searches that go back along the parents.
--
-- The parser of the demangler takes a unit for each call and each round of a loop: eight units for
-- each character and seven are enough, since a call chain of at most thirteen calls (a type, a term,
-- a symbol, its base name, the parameters of a template) consumes two characters.
--
-- eval_cpp_if takes a unit for each call and each round: four for each token and two are enough, and
-- a token is at least a character.
--
-- Parameters. arch.parse, the list of patterns (each a function from the matcher to an optional
-- replacement), arch.missing_return and asm_data.mentioned_labels are arguments of the definitions
-- that use them.
--
-- Not modelled: debug printing; asm_data where the patterns only hand it on; eval_fn, a closure that
-- the translation calls; the delay slots of build_blocks and the rewriting of likely branches; the
-- tables of the architectures; translation, types, the IR patterns and the output of statements. In
-- AsmMatcher.apply the instruction that gets the clobbers is the last one that the replacement
-- parsed, and it stands in the output once. `isupper` is taken on ASCII text.
-- In the demangler a result is a text, a ValueError, another exception, or no fuel; an input buffer is
-- what is left to read; Python's limits on recursion and on the digits of `int` are left out, and so
-- is the command line at the end of the file. Of parse_file only the conditional directives are
-- modelled, on lines that are stripped and split already: labels, sections, the data directives,
-- macros' bodies and instructions are not.
pub mod Prelude
pub mod Asm
pub mod Pattern
pub mod Flow
pub mod Bounds
pub mod Demangle
pub mod File
pub mod Examples
