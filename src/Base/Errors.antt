-- ===== src/Base/Errors.antt =====
-- Python's exceptions, as far as the program tells them apart, and results that may be one.
use Prim.Native.String.{String}

pub data Exc : Type 0 where
  lock_held lock_not_held file_not_found file_exists permission os_error : Exc
  key_error value_error : Exc
  other : String → Exc

pub data Result {ℓ} (A : Type ℓ) : Type ℓ where
  ok : A → Result A
  raise : Exc → Result A

infixl 5 ◌>>=◌ ◌>>◌
abbrev pub ◌>>=◌ {ℓ κ} : {A : Type ℓ} {B : Type κ} → Result A → (A → Result B) → Result B
ok a >>= f = f a
raise e >>= f = raise e

abbrev pub ◌>>◌ {ℓ κ} : {A : Type ℓ} {B : Type κ} → Result A → Result B → Result B
m >> k = m >>= λ _. k
