-- ===== src/Demangle/Cases.antt =====
-- The test cases in m2c/demangle_codewarrior.py.
use m2c.Prelude.{◌&&◌, Bool, true, false, List, [], ◌∷◌}
use m2c.Prelude.Text.{codes}
use m2c.Demangle.{Text, Result, ok}
use m2c.Demangle.Parse.{text_beq}
use m2c.Demangle.Print.{demangle}

-- TEST_CASES.
abbrev pub test_cases : List (Text × Text)
test_cases =
    (codes "get__6FoobarFi", codes "Foobar::get (int)")
    ∷ (codes "__foo_bar", codes "__foo_bar")
    ∷ (
      codes "__ct__10FooBarFoosFP7ArgPtrsUsPCc",
      codes "FooBarFoos::FooBarFoos (ArgPtrs *, short unsigned, char const *)",
    )
    ∷ (codes "__dt__10FooBarFoosFv", codes "FooBarFoos::~FooBarFoos (void)")
    ∷ (codes "__dl__FPv", codes "operator delete (void *)")
    ∷ (codes "__nw__FUl", codes "operator new (long unsigned)")
    ∷ (codes "__eq__3FooCFRC3Foo", codes "Foo::operator== (Foo const &) const")
    ∷ (
      codes "do__Q214GrandFooSystem8MiniFoosFUlPC3VecP3VecfUlUlPP8LateBazzUlUc",
      codes
          "GrandFooSystem::MiniFoos::do (long unsigned, Vec const *, Vec *, float, long unsigned, long unsigned, LateBazz * *, long unsigned, char unsigned)",
    )
    ∷ (
      codes
          "spin__11ThingieBaseFRCQ29MyLibrary8FVec3$$0f$$1RCQ29MyLibrary8FVec3$$0f$$1RCQ29MyLibrary8FVec3$$0f$$1",
      codes
          "ThingieBase::spin (MyLibrary::FVec3<float> const &, MyLibrary::FVec3<float> const &, MyLibrary::FVec3<float> const &)",
    )
    ∷ (
      codes "function<&alpha,&beta,&GAMMA>__FR5Class_i",
      codes "function<&alpha, &beta, &GAMMA> int (*) (Class &)",
    )
    ∷ (
      codes "function<&m0__5Class,&mf0__5ClassFi>__FR5Class_i",
      codes "function<&m0 Class, &Class::mf0 (int)> int (*) (Class &)",
    )
    ∷ (codes "__sinit_Foo_cpp", codes "Foo_cpp::__sinit void (*) (void)")
    ∷ (codes "__sterm_Foo_cpp", codes "Foo_cpp::__sterm void (*) (void)")
    ∷ (codes "foo__3BarFv", codes "Bar::foo (void)")
    ∷ (codes "foo__3BarFv__3BarFv", codes "Bar::foo__3BarFv (void)")
    ∷ (codes "foo__Q23Bar3BarFv__3BarFv", codes "Bar::foo__Q23Bar3BarFv (void)")
    ∷ (
      codes "copy__Q23std14__copy$$0Pv$$41$$40$$1FPPvPPvPPv",
      codes "std::__copy<void *, 1, 0>::copy (void * *, void * *, void * *)",
    )
    ∷ (codes "__init__bar__9Bar$$03Foo$$1", codes "__init__bar Bar<Foo>")
    ∷ (codes "bar__5__BarFv", codes "__Bar::bar (void)")
    ∷ (codes "bar__5__FooFv", codes "bar__5__FooFv")
    ∷ (codes "foo__Ul", codes "foo__Ul")
    ∷ []

unfoldable pub is_output : Text → Result Text → Bool
is_output output (ok t) = text_beq t output
is_output output _ = false

-- The loop of `test`.
unfoldable pub all_pass : List (Text × Text) → Bool
all_pass [] = true
all_pass (case ∷ cases) = is_output (case.1) (demangle 1000 (case.0)) && all_pass cases
