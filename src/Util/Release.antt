-- ===== src/Util/Release.antt =====
-- util.py: `get_file_key` and what reads /etc/os-release, `check_network`, `telemetry_unit_id`,
-- `read_file`.
pub mod Network
use steamos_log_submitter.Base.{
  ℕ, zero, suc, ◌+◌, Bool, true, false, ◌&&◌, ◌||◌, not, List, [], ◌∷◌, ◌++◌, Option, none, some,
  Result, ok, raise, file_not_found, Exc, Text, codes, text_eq, nat_eq, holds, ltb, leb, length,
  if◌then◌else◌,
}
use mathlib.Core.List.{reverse}

abbrev pub is_space : ℕ → Bool
is_space c = nat_eq c b' ' || (leb 9 c && leb c 13)

abbrev pub lstrip : (ℕ → Bool) → Text → Text
lstrip drops [] = []
lstrip drops (c ∷ s) = let rest = lstrip drops s in if drops c then rest else c ∷ s

-- `s.strip()` and `s.strip('"')`
unfoldable pub strip : (ℕ → Bool) → Text → Text
strip drops s = reverse (lstrip drops (reverse (lstrip drops s)))

-- `line.split('=', 1)`, or none without a `=`
unfoldable pub split_at : ℕ → Text → Option (Text × Text)
split_at c [] = none
split_at c (a ∷ s) =
    let rest = split_at c s in
    if nat_eq a c
    then some ([], s)
    else elim rest [ none ↦ none | some (name, val) ↦ some (a ∷ name, val) ]

abbrev pub ends_in : ℕ → Text → Bool
ends_in c [] = false
ends_in c (a ∷ []) = nat_eq a c
ends_in c (a ∷ b ∷ s) = ends_in c (b ∷ s)

-- `len(val) >= 2 and val[0] == val[-1] == '"'`
abbrev pub is_quoted : Text → Bool
is_quoted [] = false
is_quoted (a ∷ []) = false
is_quoted (a ∷ b ∷ s) = nat_eq a b'"' && ends_in b'"' (b ∷ s)

unfoldable pub unquoted : Text → Text
unfolding strip
unquoted val = if is_quoted val then strip (λ c. nat_eq c b'"') val else val

-- The lines of a file, with their line breaks. An OSError while reading gives none.
unfoldable pub get_file_key : Text → List Text → Option Text
unfolding split_at unquoted
get_file_key key [] = none
get_file_key key (line ∷ f) = elim (split_at b'=' line) [
  | none ↦ get_file_key key f
  | some (name, val) ↦ elim (text_eq name key) [
    | true ↦ some (unquoted (strip is_space val))
    | false ↦ get_file_key key f
  ]
]

abbrev pub of_lines : Text → Result (List Text) → Option Text
of_lines key (raise e) = none
of_lines key (ok f) = get_file_key key f

-- `get_version_id` and `get_build_id`, of the file that they are given or of /etc/os-release.
unfoldable pub get_version_id : Result (List Text) → Option Text
get_version_id f = of_lines (codes "VERSION_ID") f

unfoldable pub get_build_id : Result (List Text) → Option Text
get_build_id f = of_lines (codes "BUILD_ID") f

-- The answers to the requests, one after the other: a status or an exception. The answer of
-- `check_network` comes with the number of times that it sleeps four seconds.
abbrev pub is_there : Result ℕ → Bool
is_there (ok status) = nat_eq status 204
is_there (raise e) = false

unfoldable pub network_loop : ℕ → (ℕ → Result ℕ) → ℕ → Bool × ℕ
network_loop zero answer slept = (false, slept)
network_loop (suc n) answer slept = elim (is_there (answer slept)) [
  | true ↦ (true, slept)
  | false ↦ network_loop n answer (suc slept)
]

unfoldable pub check_network : (ℕ → Result ℕ) → Bool × ℕ
unfolding network_loop
check_network answer = network_loop 5 answer 0

-- `b'\0'.join(fingerprints)` for two of them; `blake2b` is the digest of hashlib in hexadecimal. A
-- file that cannot be opened raises.
abbrev pub fingerprinted : Result Text → Text → Text
fingerprinted (raise e) machine = machine
fingerprinted (ok address) machine = (codes "mac:" ++ strip is_space address) ++ (zero ∷ machine)

unfoldable pub telemetry_unit_id : (Text → Text) → Result Text → Result Text → Option Text
telemetry_unit_id blake2b address (raise e) = none
telemetry_unit_id blake2b address (ok machine_id) =
    some (blake2b (fingerprinted address (codes "machine:" ++ strip is_space machine_id)))

-- `read_file`: a file that is not there is None; in text mode the ends are stripped.
unfoldable pub read_file : Bool → Result Text → Result (Option Text)
unfolding strip
read_file binary (raise file_not_found) = ok none
read_file binary (raise e) = raise e
read_file true (ok data_read) = ok (some data_read)
read_file false (ok data_read) = ok (some (strip is_space data_read))
