-- ===== src/Base/Json.antt =====
-- JSON values as Python has them. Numbers are natural numbers; an object keeps its keys in order.
use Prim.Native.Nat.{ℕ, zero, suc}
use Prim.Native.String.{String}
use mathlib.Core.Bool.{Bool, true, false, not}
use mathlib.Core.Option.{Option, none, some}
use mathlib.Core.List.{List, [], ◌∷◌}
use text.Mathlib.Text.{◌==◌}
use steamos_log_submitter.Base.Dict.{Dict, lookup, insert}

mutual
  pub data Json : Type 0 where
    null : Json
    bool : Bool → Json
    num : ℕ → Json
    string : String → Json
    arr : Items → Json
    obj : Fields → Json

  pub data Items : Type 0 where
    nil : Items
    cons : Json → Items → Items

  pub data Fields : Type 0 where
    end : Fields
    field : String → Json → Fields → Fields

-- a value as a condition
abbrev pub truthy : Json → Bool
truthy null = false
truthy (bool b) = b
truthy (num zero) = false
truthy (num (suc n)) = true
truthy (string s) = not (s == "")
truthy (arr nil) = false
truthy (arr (cons j js)) = true
truthy (obj end) = false
truthy (obj (field k j fs)) = true

abbrev pub some_truthy : Option Json → Bool
some_truthy none = false
some_truthy (some j) = truthy j

-- None is none, which JSON writes as null.
abbrev pub not_null : Option Json → Option Json
not_null none = none
not_null (some null) = none
not_null (some j) = some j

-- `d.get(k)`
abbrev pub get : String → Dict Json → Option Json
get k d = not_null (lookup k d)

-- `if value: d[k] = value`
abbrev pub put_if : Bool → String → Json → Dict Json → Dict Json
put_if true k v d = insert k v d
put_if false k v d = d

abbrev pub put_truthy : String → Option Json → Dict Json → Dict Json
put_truthy k none d = d
put_truthy k (some v) d = put_if (truthy v) k v d

-- the same for a value that is a text or None
abbrev pub put_text : String → Option String → Dict Json → Dict Json
put_text k none d = d
put_text k (some s) d = put_if (not (s == "")) k (string s) d

-- A dict as a value.
abbrev pub fields_of : Dict Json → Fields
fields_of [] = end
fields_of ((k, v) ∷ d) = field k v (fields_of d)

abbrev pub texts_of : List String → Items
texts_of [] = nil
texts_of (s ∷ ss) = cons (string s) (texts_of ss)

abbrev pub items_of : List Json → Items
items_of [] = nil
items_of (j ∷ js) = cons j (items_of js)
