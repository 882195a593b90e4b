-- ===== src/Runs/Floats.antt =====
-- The values of floats, on two numbers of which one is a float16.
use dbuf_demo_go.Common.{IsU64, ◌≡◌, refl, Bool, true, false, not, if◌then◌else◌, ◌==◌, arith}
use dbuf_demo_go.Basic.Error.{ok}
use dbuf_demo_go.Basic.Float.{Floats, float64, get_float64}
use dbuf_demo_go.Basic.Float.RoundTrip.{IsFloats, get_float64-float64}

-- The number 1, and one with a bit that only a float64 has.
abbrev two_floats : Floats
two_floats = record {
  Float64 = Bool;
  Float32 = Unit {0};
  Float16 = Unit {0};
  nan = true;
  is_nan = λ v. false;
  equal64 = λ v w. if v then w else not w;
  equal32 = λ v w. true;
  narrow = λ v. tt;
  widen = λ v. true;
  to_half = λ v. tt;
  of_half = λ v. tt;
  bits64 = λ v. if v then 0x3FF0_0000_0000_0000 else 0x3FF0_0000_0100_0000;
  bits32 = λ v. 0x3F80_0000;
  bits16 = λ v. 0x3C00;
  of_bits64 = λ n. n == 0x3FF0_0000_0000_0000;
  of_bits32 = λ n. tt;
  of_bits16 = λ n. tt;
}

small : (v : Bool) → IsU64 (two_floats.bits64 v)
small true = omega arith
small false = omega arith

comes_back : (v : Bool) → two_floats.of_bits64 (two_floats.bits64 v) ≡ v
comes_back true = refl
comes_back false = refl

exact :
    (v : Bool)
    → two_floats.equal64 (two_floats.widen (two_floats.narrow v)) v ≡ true
    → two_floats.widen (two_floats.narrow v) ≡ v
exact true e = refl
exact false e = absurd cc

two_floats-IsFloats : IsFloats two_floats
two_floats-IsFloats = record {
  small64 = small;
  small32 = λ v. omega arith;
  small16 = λ v. omega arith;
  of_bits64-bits64 = comes_back;
  of_bits32-bits32 = λ v. refl;
  of_bits16-bits16 = λ v. refl;
  exact64 = exact;
  exact32 = λ v e. refl;
}

get_float64-float64_example : get_float64 two_floats (float64 two_floats false) ≡ ok false
get_float64-float64_example = get_float64-float64 two_floats false two_floats-IsFloats refl
