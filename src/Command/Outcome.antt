-- ===== src/Command/Outcome.antt =====
-- `Result<_, CommandPayloadParseError>` of rust/crates/espwaverider-core/src/command.rs, with its `?`.
use esp_wave_rider.Base.{◌≡◌, refl, Option, none, some, arith}
use esp_wave_rider.Text.{Text}

pub data Outcome {ℓ} (A : Type ℓ) : Type ℓ where
  ok : A → Outcome A
  payload_error : Text → Outcome A

infixl 5 ◌>>=◌
abbrev pub ◌>>=◌ {ℓ κ} : {A : Type ℓ} {B : Type κ} → Outcome A → (A → Outcome B) → Outcome B
ok a >>= f = f a
payload_error message >>= f = payload_error message

-- `.map_err(|_| CommandPayloadParseError::new(message))`
abbrev pub or_error {ℓ} : {A : Type ℓ} → Option A → Text → Outcome A
or_error none message = payload_error message
or_error (some a) message = ok a

pub >>=-eq_ok {ℓ κ} :
    {A : Type ℓ} {B : Type κ} (o : Outcome A) (f : A → Outcome B) {b : B}
    → (o >>= f) ≡ ok b
    → (a : A) × (o ≡ ok a) × (f a ≡ ok b)
>>=-eq_ok (ok a) f h = (a, refl, h)
>>=-eq_ok (payload_error message) f h = ground arith

pub or_error-eq_ok {ℓ} :
    {A : Type ℓ} (o : Option A) (message : Text) {a : A} → or_error o message ≡ ok a → o ≡ some a
or_error-eq_ok none message h = ground arith
or_error-eq_ok (some b) message h = ground arith

pub ok-injective {ℓ} : {A : Type ℓ} (a b : A) → ok a ≡ ok b → a ≡ b
ok-injective a b e = ground arith
