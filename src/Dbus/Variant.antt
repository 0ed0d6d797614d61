-- ===== src/Dbus/Variant.antt =====
-- steamos_log_submitter/dbus.py, `to_variant`: the D-Bus type that a value is sent as.
use native.Mathlib.Decide.{dec_lt}
use steamos_log_submitter.Base.{
  ℕ, ◌^◌, ◌-◌, ◌≤◌, ◌<◌, Bool, List, [], ◌∷◌, Text, if◌then◌else◌, Result, ok, raise, ◌>>=◌, other,
  ◌≡◌, ◌⊎◌, inl, inr, arith,
}
use steamos_log_submitter.Base.Int.{ℤ, pos, negsuc, ◌≤ℤ◌, leb_ℤ, ltb_ℤ}

-- The types that `to_variant` picks from, with their letters in a D-Bus signature.
pub data Kind : Type 0 where
  boolean int32 uint32 int64 uint64 double string byte_array : Kind

abbrev pub letters : Kind → Text
letters boolean = b'b' ∷ []
letters int32 = b'i' ∷ []
letters uint32 = b'u' ∷ []
letters int64 = b'x' ∷ []
letters uint64 = b't' ∷ []
letters double = b'd' ∷ []
letters string = b's' ∷ []
letters byte_array = b'a' ∷ b'y' ∷ []

-- Python's values as `isinstance` tells them apart; `Float` is Python's float.
pub data Datum (Float : Type 0) : Type 0 where
  bool : Bool → Datum Float
  int : ℤ → Datum Float
  float : Float → Datum Float
  str : Text → Datum Float
  bytes : List ℕ → Datum Float
  unsupported : Datum Float

pub record Variant (Float : Type 0) : Type 0 where
  pub kind : Kind
  pub value : Datum Float

-- `float` of an int, which raises OverflowError where the int is too large.
module _ {Float : Type 0} (to_float : ℤ → Result Float) where
  abbrev pub as_double : ℤ → Result (Variant Float)
  as_double z = to_float z >>= λ f. ok (record { kind = double; value = float f })

  unfoldable pub int_variant : ℤ → Result (Variant Float)
  int_variant z =
      if leb_ℤ (pos 0x1_0000_0000_0000_0000) z
      then as_double z
      else if leb_ℤ (pos 0x1_0000_0000) z
      then ok (record { kind = uint64; value = int z })
      else if leb_ℤ (pos 0x8000_0000) z
      then ok (record { kind = uint32; value = int z })
      else if ltb_ℤ z (negsuc 0x7fff_ffff_ffff_ffff)
      then as_double z
      else if ltb_ℤ z (negsuc 0x7fff_ffff)
      then ok (record { kind = int64; value = int z })
      else ok (record { kind = int32; value = int z })

  unfoldable pub to_variant : Datum Float → Result (Variant Float)
  to_variant (bool b) = ok (record { kind = boolean; value = bool b })
  to_variant (int z) = int_variant z
  to_variant (float f) = ok (record { kind = double; value = float f })
  to_variant (str s) = ok (record { kind = string; value = str s })
  to_variant (bytes bs) = ok (record { kind = byte_array; value = bytes bs })
  to_variant unsupported = raise (other "NotImplementedError")

-- What a type of D-Bus can hold, by its width.
abbrev pub Fits : Kind → ℤ → Type 0
Fits int32 z = (negsuc (2 ^ 31 - 1) ≤ℤ z) × (z ≤ℤ pos (2 ^ 31 - 1))
Fits uint32 z = (pos 0 ≤ℤ z) × (z ≤ℤ pos (2 ^ 32 - 1))
Fits int64 z = (negsuc (2 ^ 63 - 1) ≤ℤ z) × (z ≤ℤ pos (2 ^ 63 - 1))
Fits uint64 z = (pos 0 ≤ℤ z) × (z ≤ℤ pos (2 ^ 64 - 1))
Fits _ z = ⊥

-- No type of 32 bits holds it.
abbrev pub IsWide : ℤ → Type 0
IsWide z = ¬ Fits int32 z × ¬ Fits uint32 z

abbrev pub NeedsWidth : Kind → ℤ → Type 0
NeedsWidth int64 z = IsWide z
NeedsWidth uint64 z = IsWide z
NeedsWidth _ z = Unit

abbrev pub Sent : {Float : Type 0} → (ℤ → Result Float) → ℤ → Type 0
Sent {Float} to_float z =
    (kind : Kind) × (to_variant to_float (int z) ≡ ok (record { kind = kind; value = int z }))
    × Fits kind z
    × NeedsWidth kind z

sent_pos :
    {Float : Type 0} (to_float : ℤ → Result Float) (n : ℕ) → n < 2 ^ 64 → Sent to_float (pos n)
unfolding to_variant int_variant
sent_pos to_float n h = elim (dec_lt n (2 ^ 31)) [
  | yes small ↦ (int32, ground arith, (omega arith, omega arith), tt)
  | no large ↦ elim (dec_lt n (2 ^ 32)) [
    | yes small ↦ (uint32, ground arith, (omega arith, omega arith), tt)
    | no wide ↦ (
      uint64,
      ground arith,
      (omega arith, omega arith),
      (
        (λ (f : Fits int32 (pos n)). omega (arith, f.1)),
        λ (f : Fits uint32 (pos n)). omega (arith, f.1),
      ),
    )
  ]
]

sent_negsuc :
    {Float : Type 0} (to_float : ℤ → Result Float) (n : ℕ) → n < 2 ^ 63 → Sent to_float (negsuc n)
unfolding to_variant int_variant
sent_negsuc to_float n h = elim (dec_lt n (2 ^ 31)) [
  | yes small ↦ (int32, ground arith, (omega arith, omega arith), tt)
  | no wide ↦ (
    int64,
    ground arith,
    (omega arith, omega arith),
    (
      (λ (f : Fits int32 (negsuc n)). omega (arith, f.0)),
      λ (f : Fits uint32 (negsuc n)). omega (arith, f.0),
    ),
  )
]

abbrev pub SentAsDouble : {Float : Type 0} → (ℤ → Result Float) → ℤ → Type 0
SentAsDouble to_float z =
    ¬ Fits int64 z × ¬ Fits uint64 z × (to_variant to_float (int z) ≡ as_double to_float z)

wide_pos :
    {Float : Type 0} (to_float : ℤ → Result Float) (n : ℕ)
    → 2 ^ 64 ≤ n
    → SentAsDouble to_float (pos n)
unfolding to_variant int_variant
wide_pos to_float n h = (
  (λ (f : Fits int64 (pos n)). omega (arith, f.1)),
  (λ (f : Fits uint64 (pos n)). omega (arith, f.1)),
  ground arith,
)

wide_negsuc :
    {Float : Type 0} (to_float : ℤ → Result Float) (n : ℕ)
    → 2 ^ 63 ≤ n
    → SentAsDouble to_float (negsuc n)
unfolding to_variant int_variant
wide_negsuc to_float n h = (
  (λ (f : Fits int64 (negsuc n)). omega (arith, f.0)),
  (λ (f : Fits uint64 (negsuc n)). omega (arith, f.0)),
  ground arith,
)

-- An integer is sent as itself, in a D-Bus integer type that can hold it, and in one of 64 bits only
-- where neither type of 32 bits can; or no D-Bus integer type can hold it, and it is sent as a
-- floating-point number or raises what `float` raises for it.
pub to_variant-int :
    {Float : Type 0} (to_float : ℤ → Result Float) (z : ℤ)
    → Sent to_float z ⊎ SentAsDouble to_float z
to_variant-int to_float (pos n) = elim (dec_lt n (2 ^ 64)) [
  | yes small ↦ inl (sent_pos to_float n small)
  | no wide ↦ inr (wide_pos to_float n (omega arith))
]
to_variant-int to_float (negsuc n) = elim (dec_lt n (2 ^ 63)) [
  | yes small ↦ inl (sent_negsuc to_float n small)
  | no wide ↦ inr (wide_negsuc to_float n (omega arith))
]
