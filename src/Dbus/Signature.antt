-- ===== src/Dbus/Signature.antt =====
-- steamos_log_submitter/dbus.py, `signature` and `fn_signature`: annotations as D-Bus signatures.
use steamos_log_submitter.Base.{
  ℕ, true, List, [], ◌∷◌, ◌++◌, Text, codes, holds, Result, ok, raise, ◌>>=◌, other, Exc, Option,
  none, some, ◌≡◌, refl,
}

-- What `typing.get_origin` gives, as far as the tests tell it apart.
pub data Origin : Type 0 where
  union mapping tuple sequence unsupported : Origin

mutual
  pub data Annotation : Type 0 where
    int float bool str plain : Annotation
    generic : Origin → Annotations → Annotation

  pub data Annotations : Type 0 where
    nil : Annotations
    cons : Annotation → Annotations → Annotations

abbrev pub type_error : Exc
type_error = other "TypeError"

-- `'a{' + key + value + '}'`, `'(' + ... + ')'` and `'a' + value`
abbrev pub dict_of : Text → Text → Text
dict_of key value = b'a' ∷ b'{' ∷ (key ++ (value ++ (b'}' ∷ [])))

abbrev pub struct_of : Text → Text
struct_of types = b'(' ∷ (types ++ (b')' ∷ []))

unfoldable mutual
  pub signature : Annotation → Result Text
  signature int = ok (b'i' ∷ [])
  signature float = ok (b'd' ∷ [])
  signature bool = ok (b'b' ∷ [])
  signature str = ok (b's' ∷ [])
  signature plain = raise type_error
  signature (generic union types) = ok (b'v' ∷ [])
  signature (generic mapping nil) = raise (other "IndexError")
  signature (generic mapping (cons key nil)) = signature key >>= λ _. raise (other "IndexError")
  signature (generic mapping (cons key (cons value types))) =
      signature key >>= λ k. signature value >>= λ v. ok (dict_of k v)
  signature (generic tuple types) = signatures types >>= λ s. ok (struct_of s)
  signature (generic sequence nil) = raise (other "IndexError")
  signature (generic sequence (cons value types)) = signature value >>= λ v. ok (b'a' ∷ v)
  signature (generic unsupported types) = raise type_error

  pub signatures : Annotations → Result Text
  signatures nil = ok []
  signatures (cons type types) = signature type >>= λ s. signatures types >>= λ ss. ok (s ++ ss)

-- The D-Bus specification: a signature that is one complete type, and one that is several.
abbrev pub IsBasic : ℕ → Type 0
IsBasic c = holds c (codes "ybnqiuxtdsogh") ≡ true

mutual
  pub data IsComplete : Text → Type 0 where
    basic : (c : ℕ) → IsBasic c → IsComplete (c ∷ [])
    variant : IsComplete (b'v' ∷ [])
    array : (s : Text) → IsComplete s → IsComplete (b'a' ∷ s)
    dict : (c : ℕ) (s : Text) → IsBasic c → IsComplete s → IsComplete (dict_of (c ∷ []) s)
    struct : (s t : Text) → IsComplete s → AreComplete t → IsComplete (struct_of (s ++ t))

  pub data AreComplete : Text → Type 0 where
    no_types : AreComplete []
    more_types : (s t : Text) → IsComplete s → AreComplete t → AreComplete (s ++ t)

abbrev IsBasicType : Annotation → Type 0
IsBasicType int = Unit
IsBasicType float = Unit
IsBasicType bool = Unit
IsBasicType str = Unit
IsBasicType _ = ⊥

-- A mapping has two types, the first of them basic, a sequence has one, and a tuple has one at least.
unfoldable mutual
  pub Representable : Annotation → Type 0
  Representable (generic mapping nil) = ⊥
  Representable (generic mapping (cons key nil)) = ⊥
  Representable (generic mapping (cons key (cons value types))) =
      IsBasicType key × Representable value
  Representable (generic tuple nil) = ⊥
  Representable (generic tuple (cons type types)) = Representable type × AllRepresentable types
  Representable (generic sequence nil) = ⊥
  Representable (generic sequence (cons type types)) = Representable type
  Representable _ = Unit

  pub AllRepresentable : Annotations → Type 0
  AllRepresentable nil = Unit
  AllRepresentable (cons type types) = Representable type × AllRepresentable types

-- A result that is a signature with the property, or the one exception.
abbrev pub Signed : (Text → Type 0) → Result Text → Type 0
Signed P (ok s) = P s
Signed P (raise e) = e ≡ type_error

-- The basic types have signatures.
signature-IsBasic :
    (a : Annotation) → IsBasicType a → (c : ℕ) × (signature a ≡ ok (c ∷ [])) × IsBasic c
unfolding signature
signature-IsBasic int h = (b'i', refl, refl)
signature-IsBasic float h = (b'd', refl, refl)
signature-IsBasic bool h = (b'b', refl, refl)
signature-IsBasic str h = (b's', refl, refl)
signature-IsBasic plain h = absurd h
signature-IsBasic (generic origin types) h = absurd h

dict_signed :
    (key : Result Text) (m : Result Text)
    → ((c : ℕ) × (key ≡ ok (c ∷ [])) × IsBasic c)
    → Signed IsComplete m
    → Signed IsComplete (key >>= λ k. m >>= λ v. ok (dict_of k v))
dict_signed key (raise e) (c, is, h) p = rw is p
dict_signed key (ok s) (c, is, h) p = rw is (dict c s h p)

array_signed :
    (m : Result Text) → Signed IsComplete m → Signed IsComplete (m >>= λ v. ok (b'a' ∷ v))
array_signed (ok s) p = array s p
array_signed (raise e) p = p

struct_signed :
    (m n : Result Text)
    → Signed IsComplete m
    → Signed AreComplete n
    → Signed IsComplete ((m >>= λ s. n >>= λ ss. ok (s ++ ss)) >>= λ s. ok (struct_of s))
struct_signed (raise e) n p q = p
struct_signed (ok s) (raise e) p q = q
struct_signed (ok s) (ok t) p q = struct s t p q

more_signed :
    (m n : Result Text)
    → Signed IsComplete m
    → Signed AreComplete n
    → Signed AreComplete (m >>= λ s. n >>= λ ss. ok (s ++ ss))
more_signed (raise e) n p q = p
more_signed (ok s) (raise e) p q = q
more_signed (ok s) (ok t) p q = more_types s t p q

mutual
  unfolding signature signatures Representable AllRepresentable

  signed : (a : Annotation) → Representable a → Signed IsComplete (signature a)
  signed int h = basic b'i' refl
  signed float h = basic b'd' refl
  signed bool h = basic b'b' refl
  signed str h = basic b's' refl
  signed plain h = refl
  signed (generic union types) h = variant
  signed (generic mapping nil) h = absurd h
  signed (generic mapping (cons key nil)) h = absurd h
  signed (generic mapping (cons key (cons value types))) (k, v) =
      dict_signed (signature key) (signature value) (signature-IsBasic key k) (signed value v)
  signed (generic tuple nil) h = absurd h
  signed (generic tuple (cons type types)) (one, more) =
      struct_signed (signature type) (signatures types) (signed type one) (signed_all types more)
  signed (generic sequence nil) h = absurd h
  signed (generic sequence (cons type types)) h = array_signed (signature type) (signed type h)
  signed (generic unsupported types) h = refl

  signed_all :
      (types : Annotations) → AllRepresentable types → Signed AreComplete (signatures types)
  signed_all nil h = no_types
  signed_all (cons type types) (one, more) =
      more_signed (signature type) (signatures types) (signed type one) (signed_all types more)

-- For an annotation in which every mapping has two types, the first of them int, float, bool or str,
-- every sequence has a type and every tuple has one at least, `signature` gives the D-Bus signature
-- of one complete type, or raises TypeError.
pub signature-IsComplete : (a : Annotation) → Representable a → Signed IsComplete (signature a)
signature-IsComplete a h = signed a h

-- A parameter of a function, and what `fn_signature` makes of it. The first parameter is always
-- `self`, with no annotation, and the result has no annotation where the function has none.
pub record Parameter (A : Type 0) : Type 0 where
  pub name : Text
  pub annotation : Option A

pub record FnSignature : Type 0 where
  pub parameters : List (Parameter Text)
  pub result : Option Text

-- A missing annotation is the class `inspect._empty`, which is like any class with no origin.
abbrev pub annotated : Option Annotation → Annotation
annotated none = plain
annotated (some a) = a

abbrev pub self_parameter : Parameter Text
self_parameter = record { name = codes "self"; annotation = none }

unfoldable pub signed_parameters : List (Parameter Annotation) → Result (List (Parameter Text))
signed_parameters [] = ok []
signed_parameters (p ∷ ps) = signature (annotated p.annotation) >>= λ s.
    signed_parameters ps >>= λ rest. ok (record { name = p.name; annotation = some s } ∷ rest)

abbrev pub rest_of : List (Parameter Annotation) → List (Parameter Annotation)
rest_of [] = []
rest_of (p ∷ ps) = ps

abbrev pub signed_result : Option Annotation → Result (Option Text)
signed_result none = ok none
signed_result (some a) = signature a >>= λ s. ok (some s)

unfoldable pub fn_signature : List (Parameter Annotation) → Option Annotation → Result FnSignature
fn_signature parameters annotation = signed_parameters (rest_of parameters) >>= λ ps.
    signed_result annotation >>= λ r. ok (record { parameters = self_parameter ∷ ps; result = r })
