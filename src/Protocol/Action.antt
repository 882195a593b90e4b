-- ===== src/Protocol/Action.antt =====
-- Calls that change a state: the result, and the state that is left, after an error too.
use dbuf_demo_go.Common.{◌≡◌, refl}
use dbuf_demo_go.Basic.Error.{Result, ok, err, panic, stuck}
use dbuf_demo_go.Protocol.Reader.{Gives}

abbrev pub Action {ℓ κ} : Type ℓ → Type κ → Type (ℓ ⊔ κ)
Action S A = S → Result A × S

module _ {ℓ κ} {S : Type ℓ} {A : Type κ} where
  abbrev pub pure : A → Action S A
  pure a s = (ok a, s)

  -- A call that does not change the state.
  abbrev pub lift : Result A → Action S A
  lift m s = (m, s)

  -- A call that reads the state.
  abbrev pub reads : (S → Result A) → Action S A
  reads f s = (f s, s)

  -- What `>>=` makes of the first result.
  abbrev pub continue {ι} : {B : Type ι} → (A → Action S B) → Result A → Action S B
  continue f (ok a) s = f a s
  continue f (err e) s = (err e, s)
  continue f panic s = (panic, s)
  continue f stuck s = (stuck, s)

infixl 5 ◌>>=◌
abbrev pub ◌>>=◌ {ℓ κ ι} :
    {S : Type ℓ} {A : Type κ} {B : Type ι} → Action S A → (A → Action S B) → Action S B
◌>>=◌ m f s = continue f (m s).0 (m s).1

-- A property that holds of the state behind the first call holds at the end, if the rest keeps it.
pub continue-keeps {ℓ κ ι} :
    {S : Type ℓ} {A : Type κ} {B : Type ι} (P : S → Type 0) (f : A → Action S B) (m : Result A)
    (s : S)
    → P s
    → ((a : A) → m ≡ ok a → P (f a s).1)
    → P (continue f m s).1
continue-keeps P f (ok a) s h k = k a refl
continue-keeps P f (err e) s h k = h
continue-keeps P f panic s h k = h
continue-keeps P f stuck s h k = h

-- The same for calls that both keep it.
pub bind-keeps {ℓ κ ι} :
    {S : Type ℓ} {A : Type κ} {B : Type ι} (P : S → Type 0) (m : Action S A) (f : A → Action S B)
    (s : S)
    → P (m s).1
    → ((a : A) (s' : S) → P s' → P (f a s').1)
    → P ((m >>= f) s).1
bind-keeps P m f s h k = continue-keeps P f (m s).0 (m s).1 h (λ a e. k a (m s).1 h)

-- What holds of the value that the rest gives holds of the value at the end.
pub continue-Gives {ℓ κ ι} :
    {S : Type ℓ} {A : Type κ} {B : Type ι} (P : B → Type 0) (f : A → Action S B) (m : Result A)
    (s : S)
    → ((a : A) → m ≡ ok a → Gives P (f a s).0)
    → Gives P (continue f m s).0
continue-Gives P f (ok a) s k = k a refl
continue-Gives P f (err e) s k = tt
continue-Gives P f panic s k = tt
continue-Gives P f stuck s k = tt
