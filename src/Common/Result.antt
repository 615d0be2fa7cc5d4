-- ===== src/Common/Result.antt =====
-- Exceptions as values. A constructor stands for the class that is thrown, with its message;
-- the two classes whose constructor builds the message keep the values that it is given.
use event_sourced_core_banki.Base.{Text, ℕ, Bool, ◌≡◌, refl, true, false}

pub data Error : Type 0 where
  -- `BadRequestException`, `ConflictException`, `NotFoundException` and a plain `Error`
  bad_request conflict not_found plain : Text → Error
  -- `RetryableTransferProcessingError`
  retryable : Text → Error
  -- `WrongExpectedVersionError`: stream, expected version, actual version
  wrong_expected_version : Text → ℕ → ℕ → Error
  -- `ProjectionGapError`: account, expected version, actual version
  projection_gap : Text → ℕ → ℕ → Error

-- What a method returns or throws.
pub data Result {ℓ} (Value : Type ℓ) : Type ℓ where
  err : Error → Result Value
  ok : Value → Result Value

-- `if (c) throw e;`
abbrev pub throw_if : Bool → Error → Result (Unit {0})
throw_if false e = ok tt
throw_if true e = err e

-- What follows a call runs only when the call did not throw.
infixl 5 ◌>>=◌
abbrev pub ◌>>=◌ {ℓ κ} : {X : Type ℓ} {Y : Type κ} → Result X → (X → Result Y) → Result Y
err thrown >>= next = err thrown
ok value >>= next = next value

infixl 5 ◌>>◌
abbrev pub ◌>>◌ {ℓ} : {Y : Type ℓ} → Result (Unit {0}) → Result Y → Result Y
first >> second = first >>= λ _. second

-- What is known of a sequence that did not throw.
pub >>=-eq-ok {ℓ κ} :
    {X : Type ℓ} {Y : Type κ} (first : Result X) (next : X → Result Y) {y : Y}
    → (first >>= next) ≡ ok y
    → (x : X) × (first ≡ ok x) × (next x ≡ ok y)
>>=-eq-ok (err thrown) next h = cc
>>=-eq-ok (ok x) next h = (x, refl, h)

pub ok-injective {ℓ} : {X : Type ℓ} {x y : X} → ◌≡◌ {A = Result X} (ok x) (ok y) → x ≡ y
ok-injective h = cc

pub bind_assoc {ℓ κ μ} :
    {A : Type ℓ} {B : Type κ} {C : Type μ} (m : Result A) (f : A → Result B) (g : B → Result C)
    → (m >>= f >>= g) ≡ (m >>= λ a. f a >>= g)
bind_assoc (ok a) f g = refl
bind_assoc (err e) f g = refl

pub bind_cong {ℓ κ} :
    {A : Type ℓ} {B : Type κ} (m : Result A) (f g : A → Result B)
    → ((a : A) → f a ≡ g a)
    → (m >>= f) ≡ (m >>= g)
bind_cong (ok a) f g h = h a
bind_cong (err e) f g h = refl
