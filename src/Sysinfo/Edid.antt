-- ===== src/Sysinfo/Edid.antt =====
-- helpers/sysinfo.py, `MonitorsType`: the description that a monitor gives of itself.
use steamos_log_submitter.Base.{
  ℕ, zero, suc, ◌+◌, ◌*◌, ◌/◌, ◌%◌, ◌^◌, ◌≤◌, ◌<◌, Bool, List, [], ◌∷◌, Option, none, some, ◌≡◌,
  refl, arith, nat_eq, ltb, length, Text, if◌then◌else◌,
}

-- `bytes[n]`, for an index that is in range
abbrev pub byte : List ℕ → ℕ → ℕ
byte [] n = 0
byte (b ∷ bytes) zero = b
byte (b ∷ bytes) (suc n) = byte bytes n

abbrev pub take : ℕ → List ℕ → List ℕ
take zero bytes = []
take (suc n) [] = []
take (suc n) (b ∷ bytes) = b ∷ take n bytes

abbrev pub drop : ℕ → List ℕ → List ℕ
drop zero bytes = bytes
drop (suc n) [] = []
drop (suc n) (b ∷ bytes) = drop n bytes

-- the fields of `struct.unpack` with `<`: the low byte stands first
abbrev pub half_at : List ℕ → ℕ → ℕ
half_at bytes n = byte bytes n + 256 * byte bytes (suc n)

abbrev pub little : List ℕ → ℕ
little [] = 0
little (b ∷ bytes) = b + 256 * little bytes

abbrev pub sum : List ℕ → ℕ
sum [] = 0
sum (b ∷ bytes) = b + sum bytes

pub data Kind : Type 0 where
  unknown name text serial : Kind

pub record Descriptor : Type 0 where
  pub kind : Kind
  pub value : List ℕ

abbrev pub first_line : List ℕ → List ℕ
first_line [] = []
first_line (b ∷ bytes) = let rest = first_line bytes in if nat_eq b 10 then [] else b ∷ rest

abbrev pub kind_of : ℕ → Kind
kind_of type =
    if nat_eq type 0xFC
    then name
    else (if nat_eq type 0xFE then text else (if nat_eq type 0xFF then serial else unknown))

abbrev pub descriptor_of : Kind → List ℕ → Descriptor
descriptor_of unknown value = record { kind = unknown; value = [] }
descriptor_of kind value = record { kind = kind; value = value }

-- `parse_display_descriptor`; the value is left in bytes, of which cp437 makes a character each.
unfoldable pub parse_display_descriptor : List ℕ → Descriptor
parse_display_descriptor desc = descriptor_of (kind_of (byte desc 1)) (first_line (drop 3 desc))

-- `(pnp_id >> 8) | (pnp_id << 8)`; for 16 bits the two have no bit in common.
abbrev pub swapped : ℕ → ℕ
swapped pnp_id = pnp_id / 256 + pnp_id * 256

-- The characters of `info['pnp']`.
unfoldable pub pnp_text : ℕ → Text
pnp_text id = ((id / 2 ^ 10) % 32 + 0x40) ∷ ((id / 2 ^ 5) % 32 + 0x40) ∷ (id % 32 + 0x40) ∷ []

-- `info`; numbers stand for the texts that they are printed to. A descriptor is none where the
-- bytes are a timing.
pub record Info : Type 0 where
  pub pnp : Text
  pub pid : ℕ
  pub serial_number : ℕ
  pub major : ℕ
  pub minor : ℕ
  pub checksum : Bool
  pub desc0 : Option Descriptor
  pub desc1 : Option Descriptor
  pub desc2 : Option Descriptor
  pub desc3 : Option Descriptor

abbrev pub descriptor : List ℕ → ℕ → ℕ → Option Descriptor
descriptor edid at start =
    if nat_eq (half_at edid at) 0
    then some (parse_display_descriptor (take 16 (drop start edid)))
    else none

unfoldable pub info_of : List ℕ → Info
info_of edid = record {
  pnp = pnp_text (swapped (half_at edid 8));
  pid = half_at edid 10;
  serial_number = little (take 4 (drop 12 edid));
  major = byte edid 18;
  minor = byte edid 19;
  checksum = nat_eq (sum (take 128 edid) % 256) 0;
  desc0 = descriptor edid 54 56;
  desc1 = descriptor edid 72 74;
  desc2 = descriptor edid 90 92;
  desc3 = descriptor edid 108 110;
}

abbrev pub magic : ℕ
magic = 0xFFFFFFFFFFFF00

unfoldable pub parse_edid : List ℕ → Option Info
parse_edid edid =
    if ltb (length edid) 128
    then none
    else (if nat_eq (little (take 8 edid)) magic then some (info_of edid) else none)

letter_high :
    (a b c lo : ℕ)
    → b < 32
    → c < 32
    → a < 32
    → ((65536 * lo + a * 1024 + b * 32 + c) / 1024) % 32 ≡ a
letter_high a b c lo hb hc ha = omega arith

letter_middle :
    (a b c lo : ℕ) → b < 32 → c < 32 → ((65536 * lo + a * 1024 + b * 32 + c) / 32) % 32 ≡ b
letter_middle a b c lo hb hc = omega arith

letter_low : (a b c lo : ℕ) → c < 32 → (65536 * lo + a * 1024 + b * 32 + c) % 32 ≡ c
letter_low a b c lo hc = omega arith

three :
    {a b c x y z : ℕ}
    → x ≡ a
    → y ≡ b
    → z ≡ c
    → ◌≡◌ {A = Text} ((x + 64) ∷ (y + 64) ∷ (z + 64) ∷ []) ((a + 64) ∷ (b + 64) ∷ (c + 64) ∷ [])
three p q r = rw (p, q, r) refl

pnp_text_letters :
    (a b c hi lo : ℕ)
    → a < 32
    → b < 32
    → c < 32
    → lo < 256
    → hi * 256 + lo ≡ a * 1024 + b * 32 + c
    → pnp_text (swapped (hi + 256 * lo)) ≡ (a + 64) ∷ (b + 64) ∷ (c + 64) ∷ []
unfolding pnp_text
pnp_text_letters a b c hi lo ha hb hc hl e =
    let whole : swapped (hi + 256 * lo) ≡ 65536 * lo + a * 1024 + b * 32 + c = omega arith in
    rw whole (
      three (letter_high a b c lo hb hc ha) (letter_middle a b c lo hb hc) (letter_low a b c lo hc))

-- The maker's code of a monitor is three letters of five bits, in two bytes of which the high one
-- stands first. An EDID block of 128 bytes or more with the right magic is read, and its code with
-- it: each letter, from 1 for A on, becomes its character.
pub parse_edid_letters :
    (edid : List ℕ) (a b c : ℕ)
    → 128 ≤ length edid
    → little (take 8 edid) ≡ magic
    → a < 32
    → b < 32
    → c < 32
    → byte edid 9 < 256
    → byte edid 8 * 256 + byte edid 9 ≡ a * 1024 + b * 32 + c
    → (info : Info) × (parse_edid edid ≡ some info)
      × (info.pnp ≡ (a + 64) ∷ (b + 64) ∷ (c + 64) ∷ [])
unfolding parse_edid
parse_edid_letters edid a b c long right ha hb hc hl e = (info_of edid, read, named)
  where
    read : parse_edid edid ≡ some (info_of edid)
    read = ground arith

    named : (info_of edid).pnp ≡ (a + 64) ∷ (b + 64) ∷ (c + 64) ∷ []
    named = unfold info_of in pnp_text_letters a b c (byte edid 8) (byte edid 9) ha hb hc hl e
