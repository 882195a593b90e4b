-- ===== src/Basic/Error.antt =====
-- basic/error.go: Go errors as values, and their translation into a value of the protocol.
-- The text of an error, `DbufErrorHolder.msg`, is made by a function that the program can replace,
-- and nothing but a log reads it: it is left out.
use dbuf_demo_go.Common.{ℕ, String, Bytes}
use dbuf_demo_go.Basic.Val
use dbuf_demo_go.Basic.Val.{DbufVal, DbufValSeq, leaf, nest, Sequence, no_items, item}
use dbuf_demo_go.Basic.Registry

-- `holder val wrapped` is a `DbufErrorHolder`, the only `DbufError`. `wrap_with text e` is
-- `fmt.Errorf("text: %w", e)`, `u32_overflow n` is `fmt.Errorf("u32 length overflow (%d)", n)`, and
-- `plain text` any other error, such as one of `errors.New`. The variables that errors are compared
-- with have constructors of their own: `key_not_found` is `data.ErrKeyNotFound` and
-- `managed_key_not_found` is `ErrKeyManagerKeyNotFound`.
mutual
  pub data GoError : Type 0 where
    holder : Sequence → Wrapped → GoError
    wrap_with : String → GoError → GoError
    u32_overflow : ℕ → GoError
    plain : String → GoError
    eof unexpected_eof key_not_found managed_key_not_found : GoError

  -- `[]error`
  pub data Wrapped : Type 0 where
    no_errors : Wrapped
    also : GoError → Wrapped → Wrapped

-- What a call gives: a value, an error, a run-time panic, or, in the model only, the news that the
-- fuel of a loop ran out.
pub data Result {ℓ} (A : Type ℓ) : Type ℓ where
  ok : A → Result A
  err : GoError → Result A
  panic : Result A
  stuck : Result A

infixl 5 ◌>>=◌
abbrev pub ◌>>=◌ {ℓ κ} : {A : Type ℓ} {B : Type κ} → Result A → (A → Result B) → Result B
ok a >>= f = f a
err e >>= f = err e
panic >>= f = panic
stuck >>= f = stuck

abbrev pub error_base : Sequence → Wrapped → GoError
error_base val wrapped = holder val wrapped

-- The error with one registry value and nothing wrapped.
abbrev registry_error : ℕ → GoError
registry_error n = error_base (item (leaf (Val.registry n)) no_items) no_errors

abbrev pub incomplete_stream : GoError
incomplete_stream = registry_error Registry.incomplete_stream

abbrev pub error_internal : GoError
error_internal = registry_error Registry.error_internal

abbrev pub data_error_seq : DbufValSeq → GoError → GoError
data_error_seq path e =
    error_base
      (item (leaf (Val.registry Registry.value)) (
        item (leaf (Val.registry Registry.data_error))
          (item (leaf (Val.registry Registry.data_path)) (item path no_items))))
      (also e no_errors)

abbrev pub data_error : DbufVal → GoError → GoError
data_error path e = data_error_seq (leaf path) e

abbrev pub data_key_not_accepted : GoError
data_key_not_accepted = registry_error Registry.data_key_not_accepted

abbrev pub data_type_not_accepted : GoError
data_type_not_accepted = registry_error Registry.data_type_not_accepted

abbrev pub data_value_not_accepted : GoError
data_value_not_accepted = registry_error Registry.data_value_not_accepted

abbrev pub data_key_missing : GoError
data_key_missing = registry_error Registry.data_key_missing

abbrev pub text_error : Bytes → GoError
text_error s = error_base (item (leaf (Val.text s)) no_items) no_errors

-- `append(wrapped, inner)`
abbrev append_error : Wrapped → GoError → Wrapped
append_error no_errors e = also e no_errors
append_error (also x w) e = also x (append_error w e)

-- `outer` is a `DbufError`, so its type in Go is `DbufErrorHolder`: another error never gets here.
abbrev pub error_wrap : GoError → GoError → GoError
error_wrap (holder val wrapped) inner = error_base val (append_error wrapped inner)
error_wrap outer inner = outer

-- `append(seq, v)`
abbrev pub append_item : Sequence → DbufValSeq → Sequence
append_item no_items v = item v no_items
append_item (item x seq) v = item x (append_item seq v)

-- A `DbufError` of one value stands for that value, any other for a map.
abbrev error_val : Sequence → DbufValSeq
error_val (item v no_items) = v
error_val des = nest Val.map des

-- The values of the wrapped errors: one stands for itself, several for an array.
abbrev wrapped_val : Sequence → DbufValSeq
wrapped_val (item v no_items) = v
wrapped_val vs = nest Val.array vs

-- `dvs.Sequence = append(dvs.Sequence, error, wrapped)`, and `dvs` with its value in front.
abbrev add_wrapped : Sequence → DbufValSeq → Sequence
add_wrapped seq wrapped = append_item (append_item seq (leaf (Val.registry Registry.error))) wrapped

abbrev value_item : DbufValSeq → Sequence
value_item v = item (leaf (Val.registry Registry.value)) (item v no_items)

-- The `if nest { … }` at the end of `ErrorToValInternal`.
abbrev nest_wrapped : DbufValSeq → DbufValSeq → DbufValSeq
nest_wrapped (leaf v) wrapped = nest Val.map (add_wrapped (value_item (leaf v)) wrapped)
nest_wrapped (nest v no_items) wrapped =
    nest Val.map (add_wrapped (value_item (nest v no_items)) wrapped)
nest_wrapped (nest v (item x no_items)) wrapped = nest Val.map (add_wrapped (value_item x) wrapped)
nest_wrapped (nest v seq) wrapped = nest v (add_wrapped seq wrapped)

-- An error that wraps none is not nested.
abbrev with_wrapped : DbufValSeq → Sequence → DbufValSeq
with_wrapped dvs no_items = dvs
with_wrapped dvs wrapped = nest_wrapped dvs (wrapped_val wrapped)

-- `internalFunc` is the argument of `ErrorToValInternal`; `ErrorToVal` passes nil.
module _ (internal_func : GoError → DbufValSeq) where
  unfoldable mutual
    pub error_to_val_internal : GoError → DbufValSeq
    error_to_val_internal (holder val wrapped) = with_wrapped (error_val val) (wrapped_vals wrapped)
    error_to_val_internal (wrap_with s e) = internal_func (wrap_with s e)
    error_to_val_internal (u32_overflow n) = internal_func (u32_overflow n)
    error_to_val_internal (plain s) = internal_func (plain s)
    error_to_val_internal eof = internal_func eof
    error_to_val_internal unexpected_eof = internal_func unexpected_eof
    error_to_val_internal key_not_found = internal_func key_not_found
    error_to_val_internal managed_key_not_found = internal_func managed_key_not_found

    pub wrapped_vals : Wrapped → Sequence
    wrapped_vals no_errors = no_items
    wrapped_vals (also e w) = item (error_to_val_internal e) (wrapped_vals w)

unfoldable pub error_to_val : GoError → DbufValSeq
unfolding error_to_val_internal
error_to_val = error_to_val_internal (λ e. leaf (Val.registry Registry.error_internal))
