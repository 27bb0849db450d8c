-- ===== src/Text/Results.antt =====
-- `Result<A, String>`, with its `?`.
use esp_wave_rider.Base.{◌≡◌, Option, none, some, arith}
use esp_wave_rider.Text.{Text}

pub data Result {ℓ} (A : Type ℓ) : Type ℓ where
  ok : A → Result A
  err : Text → Result A

infixl 5 ◌>>=◌
abbrev pub ◌>>=◌ {ℓ κ} : {A : Type ℓ} {B : Type κ} → Result A → (A → Result B) → Result B
ok a >>= f = f a
err message >>= f = err message

-- `.map_err(|_| String::from(message))`, and `ok_or_else`
abbrev pub or_err {ℓ} : {A : Type ℓ} → Option A → Text → Result A
or_err none message = err message
or_err (some a) message = ok a

-- A call that succeeds hands its result on.
pub >>=-ok {ℓ κ} :
    {A : Type ℓ} {B : Type κ} (r : Result A) (f : A → Result B) {a : A} {o : Result B}
    → r ≡ ok a
    → f a ≡ o
    → (r >>= f) ≡ o
>>=-ok (ok b) f {a} e h = ground arith
>>=-ok (err message) f e h = ground arith

-- A step that succeeds, with what holds of its result.
abbrev pub Gives {ℓ κ} : {A : Type ℓ} → Result A → (A → Type κ) → Type (ℓ ⊔ κ)
Gives {A = A} r P = (a : A) × (r ≡ ok a) × P a
