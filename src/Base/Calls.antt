-- ===== src/Base/Calls.antt =====
-- What a Go call can end in. `Result` is a pair of a value and an error of which exactly one is
-- meant; `Outcome` is that of code which may also panic or end the process.
use Prim.Native.Nat.{ℕ}
use Prim.Native.String.{String}
use mathlib.Core.Path.{◌≡◌, refl, ap, sym, ◌∙◌}
use mathlib.Core.Logic.{◌≢◌, ◌⊎◌, inl, inr}

-- The errors that the source names, and `foreign` for one that comes from a call outside of it.
pub data Error : Type 0 where
  no_historical_info : Error
  no_validator_found : Error
  unknown_extension_options : String → Error
  unknown_request : Error
  not_viper : Error
  foreign : String → Error

pub data Result {ℓ} (A : Type ℓ) : Type ℓ where
  ok : A → Result A
  err : Error → Result A

pub data Outcome {ℓ} (A : Type ℓ) : Type ℓ where
  returned : A → Outcome A
  panicked : Error → Outcome A
  exited : ℕ → Outcome A

infixl 5 ◌>>=◌ ◌>>◌
abbrev pub ◌>>=◌ {ℓ κ} : {A : Type ℓ} {B : Type κ} → Outcome A → (A → Outcome B) → Outcome B
returned a >>= f = f a
panicked e >>= f = panicked e
exited n >>= f = exited n

abbrev pub ◌>>◌ {ℓ} : {B : Type ℓ} → Outcome (Unit {0}) → Outcome B → Outcome B
m >> k = m >>= λ _. k

-- `if err != nil { panic(err) }`
abbrev pub or_panic {ℓ} : {A : Type ℓ} → Result A → Outcome A
or_panic (ok a) = returned a
or_panic (err e) = panicked e

-- `if err != nil { os.Exit(1) }`
abbrev pub or_exit {ℓ} : {A : Type ℓ} → Result A → Outcome A
or_exit (ok a) = returned a
or_exit (err e) = exited 1

-- Inversion of a bind that returns.
pub >>=-eq-returned {ℓ κ} :
    {A : Type ℓ} {B : Type κ} (m : Outcome A) (f : A → Outcome B) {b : B}
    → (m >>= f) ≡ returned b
    → (a : A) × (m ≡ returned a) × (f a ≡ returned b)
>>=-eq-returned (returned a) f h = (a, refl, h)
>>=-eq-returned (panicked e) f h = cc
>>=-eq-returned (exited n) f h = cc

pub bind_panic_inv {ℓ κ} :
    {A : Type ℓ} {B : Type κ} (r : Result A) (f : A → Outcome B) {b : B}
    → (or_panic r >>= f) ≡ returned b
    → (a : A) × (r ≡ ok a) × (f a ≡ returned b)
bind_panic_inv (ok a) f h = (a, refl, h)
bind_panic_inv (err e) f h = cc

pub bind_exit_inv {ℓ κ} :
    {A : Type ℓ} {B : Type κ} (r : Result A) (f : A → Outcome B) {b : B}
    → (or_exit r >>= f) ≡ returned b
    → (a : A) × (r ≡ ok a) × (f a ≡ returned b)
bind_exit_inv (ok a) f h = (a, refl, h)
bind_exit_inv (err e) f h = cc

pub returned_inj {ℓ} : {A : Type ℓ} {a b : A} → returned a ≡ returned b → b ≡ a
returned_inj h = cc

pub bind_at {ℓ κ} :
    {A : Type ℓ} {B : Type κ} (m : Outcome A) (f : A → Outcome B) {a : A} {r : Outcome B}
    → m ≡ returned a
    → (m >>= f) ≡ r
    → f a ≡ r
bind_at m f p h = sym (ap (λ m. m >>= f) p) ∙ h

pub bind_eq {ℓ κ} :
    {A : Type ℓ} {B : Type κ} (m : Outcome A) (f : A → Outcome B) {a : A}
    → m ≡ returned a
    → (m >>= f) ≡ f a
bind_eq m f p = ap (λ m. m >>= f) p

-- `if err != nil { return …, err }`
abbrev pub on_ok {ℓ κ} : {A : Type ℓ} {B : Type κ} → Result A → (A → Result B) → Result B
on_ok (ok a) f = f a
on_ok (err e) f = err e

pub on_ok_inv {ℓ κ} :
    {A : Type ℓ} {B : Type κ} (r : Result A) (f : A → Result B) {b : B}
    → on_ok r f ≡ ok b
    → (a : A) × (r ≡ ok a) × (f a ≡ ok b)
on_ok_inv (ok a) f h = (a, refl, h)
on_ok_inv (err e) f h = cc

pub ok_inj {ℓ} : {A : Type ℓ} {a b : A} → ok a ≡ ok b → b ≡ a
ok_inj h = cc

pub >>=-eq-exited {ℓ κ} :
    {A : Type ℓ} {B : Type κ} (m : Outcome A) (f : A → Outcome B) {n : ℕ}
    → (m >>= f) ≡ exited n
    → (m ≡ exited n) ⊎ ((a : A) × (m ≡ returned a) × (f a ≡ exited n))
>>=-eq-exited (returned a) f h = inr (a, refl, h)
>>=-eq-exited (panicked e) f h = cc
>>=-eq-exited (exited k) f h = inl (cc)

pub not_exited_or_panic {ℓ} : {A : Type ℓ} (r : Result A) {n : ℕ} → or_panic r ≢ exited n
not_exited_or_panic (ok a) h = cc
not_exited_or_panic (err e) h = cc

pub or_panic_inv {ℓ} : {A : Type ℓ} (r : Result A) {a : A} → or_panic r ≡ returned a → r ≡ ok a
or_panic_inv (ok b) h = cc
or_panic_inv (err e) h = cc
