-- ===== src/Basic/Compare.antt =====
-- basic/val.go: `Compare`, `Equal` and `SliceEqual`. The ints -1, 0 and 1 of `cmp.Compare` are the
-- constructors of `Ordering`.
pub mod Laws
use Prim.Native.Nat
use Prim.Native.Nat.{Ordering}
use dbuf_demo_go.Common.{
  ℕ, Bool, true, false, ◌&&◌, if◌then◌else◌, ◌==◌, List, [], ◌∷◌, Bytes, length,
}
use dbuf_demo_go.Basic.Val.{DbufVal, contents}

-- `cmp.Or`
abbrev pub or_else : Ordering → Ordering → Ordering
or_else Ordering.eq o = o
or_else Ordering.lt o = Ordering.lt
or_else Ordering.gt o = Ordering.gt

-- The loop over the bytes, of two slices of one length.
unfoldable pub compare_bytes : Bytes → Bytes → Ordering
compare_bytes [] b = Ordering.eq
compare_bytes (x ∷ a) [] = Ordering.eq
compare_bytes (x ∷ a) (y ∷ b) = if x == y then compare_bytes a b else Nat.compare x y

unfoldable pub compare : DbufVal → DbufVal → Ordering
compare a b =
    or_else
      (or_else (Nat.compare a.type b.type) (
        or_else (Nat.compare a.value b.value)
          (Nat.compare (length (contents a.slice)) (length (contents b.slice)))))
      (compare_bytes (contents a.slice) (contents b.slice))

abbrev pub is_eq : Ordering → Bool
is_eq Ordering.eq = true
is_eq Ordering.lt = false
is_eq Ordering.gt = false

unfoldable pub equal : DbufVal → DbufVal → Bool
equal v other = is_eq (compare v other)

unfoldable pub slice_equal : List DbufVal → List DbufVal → Bool
slice_equal [] [] = true
slice_equal [] (y ∷ b) = false
slice_equal (x ∷ a) [] = false
slice_equal (x ∷ a) (y ∷ b) = equal x y && slice_equal a b
