-- ===== src/Protocol/Reader.antt =====
-- `io.Reader` and `io.ReadFull` as protocol/stream.go uses them. A reader is what is to come of its
-- stream: bytes, and the error that stands behind them, such as `io.EOF`. How the bytes are cut into
-- reads cannot be seen through `io.ReadFull`.
use dbuf_demo_go.Common.{
  ℕ, zero, suc, ◌+◌, ◌≡◌, refl, inl, inr, Bool, true, false, Bool-cases, length-take, length-drop,
  subst, if◌then◌else◌, leb,
}
use dbuf_demo_go.Common.{Bytes, length, take, drop, arith, le→leb, ◌++◌}
use dbuf_demo_go.Common.{length-append, take-append, drop-append}
use dbuf_demo_go.Basic.Error.{Result, ok, err, panic, stuck, ◌>>=◌, GoError, eof, unexpected_eof}

pub record Reader : Type 0 where
  pub bytes : Bytes
  pub last : GoError

-- The error for a buffer that `n` bytes did not fill.
abbrev pub short_error : ℕ → GoError → GoError
short_error zero e = e
short_error (suc n) eof = unexpected_eof
short_error (suc n) e = e

-- `ReadFull`: the bytes of a buffer of the length `n`, and the rest of the stream. No stream is read
-- on after an error.
unfoldable pub read_full : ℕ → Reader → Result (Bytes × Reader)
read_full n r =
    if leb n (length r.bytes)
    then ok (take n r.bytes, record r { bytes = drop n r.bytes })
    else err (short_error (length r.bytes) r.last)

-- `if err != nil { return …, f(err) }`
abbrev pub map_err {ℓ} : {A : Type ℓ} → (GoError → GoError) → Result A → Result A
map_err f (ok a) = ok a
map_err f (err e) = err (f e)
map_err f panic = panic
map_err f stuck = stuck

-- A call that returns, with a value or with an error.
abbrev pub Returns {ℓ} : {A : Type ℓ} → Result A → Type 0
Returns (ok a) = Unit {0}
Returns (err e) = Unit {0}
Returns panic = ⊥
Returns stuck = ⊥

pub bind-Returns {ℓ κ} :
    {A : Type ℓ} {B : Type κ} (m : Result A) (f : A → Result B)
    → Returns m
    → ((a : A) → m ≡ ok a → Returns (f a))
    → Returns (m >>= f)
bind-Returns (ok a) f h k = k a refl
bind-Returns (err e) f h k = tt
bind-Returns panic f h k = h
bind-Returns stuck f h k = h

pub if-Returns {ℓ} :
    {A : Type ℓ} (b : Bool) (x y : Result A)
    → (b ≡ true → Returns x)
    → (b ≡ false → Returns y)
    → Returns (if b then x else y)
if-Returns true x y h k = h refl
if-Returns false x y h k = k refl

pub map_err-Returns {ℓ} :
    {A : Type ℓ} (f : GoError → GoError) (m : Result A) → Returns m → Returns (map_err f m)
map_err-Returns f (ok a) h = tt
map_err-Returns f (err e) h = tt
map_err-Returns f panic h = h
map_err-Returns f stuck h = h

pub map_err-ok {ℓ} :
    {A : Type ℓ} (f : GoError → GoError) (m : Result A) (a : A) → map_err f m ≡ ok a → m ≡ ok a
map_err-ok f (ok b) a h = h
map_err-ok f (err e) a h = absurd cc
map_err-ok f panic a h = absurd cc
map_err-ok f stuck a h = absurd cc

pub read_full-Returns : (n : ℕ) (r : Reader) → Returns (read_full n r)
unfolding read_full
read_full-Returns n r = elim (Bool-cases (leb n (length r.bytes))) [
  | inl h ↦ rw h tt
  | inr h ↦ rw h tt
]

pub read_full-length :
    (n : ℕ) (r : Reader) (a : Bytes × Reader) → read_full n r ≡ ok a → length a.0 ≡ n
unfolding read_full
read_full-length n r a h = ground (arith, length-take n r.bytes)

-- A stream that starts with the bytes read.
pub read_full_append :
    (b rest : Bytes) (e : GoError)
    → read_full (length b) (record { bytes = b ++ rest; last = e })
      ≡ ok (b, record { bytes = rest; last = e })
unfolding read_full
read_full_append b rest e =
    rw
      (
        le→leb (length b) (length (b ++ rest)) (omega (arith, length-append b rest)),
        take-append b rest,
        drop-append b rest,
      )
      refl

-- What holds of the value of a result, if there is one.
abbrev pub Gives {ℓ} : {A : Type ℓ} → (A → Type 0) → Result A → Type 0
Gives P (ok a) = P a
Gives P m = Unit {0}

pub if-Gives {ℓ} :
    {A : Type ℓ} (P : A → Type 0) (b : Bool) (x y : Result A)
    → (b ≡ true → Gives P x)
    → (b ≡ false → Gives P y)
    → Gives P (if b then x else y)
if-Gives P true x y h k = h refl
if-Gives P false x y h k = k refl

pub bind-Gives {ℓ κ} :
    {A : Type ℓ} {B : Type κ} (P : B → Type 0) (m : Result A) (f : A → Result B)
    → ((a : A) → m ≡ ok a → Gives P (f a))
    → Gives P (m >>= f)
bind-Gives P (ok a) f h = h a refl
bind-Gives P (err e) f h = tt
bind-Gives P panic f h = tt
bind-Gives P stuck f h = tt

pub gives_ok {ℓ} : {A : Type ℓ} (P : A → Type 0) (m : Result A) (a : A) → Gives P m → m ≡ ok a → P a
gives_ok P (ok b) a h e = subst (Gives P) e h
gives_ok P (err x) a h e = absurd cc
gives_ok P panic a h e = absurd cc
gives_ok P stuck a h e = absurd cc

pub Gives-mono {ℓ} :
    {A : Type ℓ} (P Q : A → Type 0) (m : Result A) → ((a : A) → P a → Q a) → Gives P m → Gives Q m
Gives-mono P Q (ok a) f h = f a h
Gives-mono P Q (err e) f h = tt
Gives-mono P Q panic f h = tt
Gives-mono P Q stuck f h = tt

pub map_err-Gives {ℓ} :
    {A : Type ℓ} (P : A → Type 0) (f : GoError → GoError) (m : Result A)
    → Gives P m
    → Gives P (map_err f m)
map_err-Gives P f (ok a) h = h
map_err-Gives P f (err e) h = tt
map_err-Gives P f panic h = tt
map_err-Gives P f stuck h = tt

-- What `ReadFull` reads and what it leaves make up the stream.
pub read_full_left :
    (n : ℕ) (r : Reader) (a : Bytes × Reader)
    → read_full n r ≡ ok a
    → length a.1.bytes + n ≡ length r.bytes
unfolding read_full
read_full_left n r a h = ground (arith, length-drop n r.bytes)
