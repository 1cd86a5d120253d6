-- ===== src/Common/Outcome.antt =====
-- What a call comes to where the program may panic. A panic ends the program, so no state is left.
use mathlib.Core.Path.{◌≡◌, refl}
use mathlib.Core.Option.{Option, none, some}
use mathlib.Core.Bool.{Bool, true, false}

pub data Fault : Type 0 where
  zero_flow_timeout flow_expiration route_expiration : Fault
  registration_expiration challenge_expiration : Fault
  zero_samples no_samples percentile_range index_range sample_count : Fault
  no_echo echo_size echo_mismatch : Fault
  instant_addition socket_failed not_utf8 wrong_identity : Fault

pub data Outcome {ℓ} (A : Type ℓ) : Type ℓ where
  done : A → Outcome A
  panic : Fault → Outcome A

infixl 5 ◌>>=◌ ◌>>◌
abbrev pub ◌>>=◌ {κ ℓ} : {A : Type κ} {B : Type ℓ} → Outcome A → (A → Outcome B) → Outcome B
done a >>= f = f a
panic w >>= f = panic w

abbrev pub ◌>>◌ {κ} : {B : Type κ} → Outcome (Unit {0}) → Outcome B → Outcome B
m >> k = m >>= λ _. k

-- `Option::expect`
abbrev pub expect {ℓ} : {A : Type ℓ} → Option A → Fault → Outcome A
expect none w = panic w
expect (some a) w = done a

-- `assert!`
abbrev pub assert {ℓ} : {A : Type ℓ} → Bool → Fault → A → Outcome A
assert true w a = done a
assert false w a = panic w

-- `assert!` before more code
abbrev pub require : Bool → Fault → Outcome (Unit {0})
require b w = assert b w tt

pub >>=-eq-done {ℓ κ} :
    {A : Type ℓ} {B : Type κ} (first : Outcome A) (rest : A → Outcome B) {last : B}
    → (first >>= rest) ≡ done last
    → (between : A) × (first ≡ done between) × (rest between ≡ done last)
>>=-eq-done (done between) rest e = (between, refl, e)
>>=-eq-done (panic _) rest e = cc

pub done-injective {ℓ} : {A : Type ℓ} {a b : A} → done a ≡ done b → a ≡ b
done-injective e = cc

-- A call that comes to an end without a panic.
abbrev pub Finishes {ℓ} : {A : Type ℓ} → Outcome A → Type ℓ
Finishes {A = A} m = (a : A) × (m ≡ done a)

pub bind-Finishes {κ ℓ} :
    {A : Type κ} {B : Type ℓ} (m : Outcome A) (f : A → Outcome B)
    → Finishes m
    → ((a : A) → Finishes (f a))
    → Finishes (m >>= f)
bind-Finishes m f (a, e) h = rw e (h a)

pub expect-Finishes {ℓ} :
    {A : Type ℓ} (o : Option A) (w : Fault) (a : A) → o ≡ some a → Finishes (expect o w)
expect-Finishes o w a e = (a, rw e refl)
