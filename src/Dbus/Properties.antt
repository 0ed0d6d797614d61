-- ===== src/Dbus/Properties.antt =====
-- steamos_log_submitter/dbus.py, `DBusProperties`: who is told of which property. A callback is known
-- by a number; a value is whatever the bus sends.
use steamos_log_submitter.Base.{
  ℕ, suc, List, [], ◌∷◌, ◌++◌, Option, none, some, String, ◌==◌, if◌then◌else◌,
}
use steamos_log_submitter.Base.Dict.{Dict, lookup, insert}

-- `handlers` counts how often `_update_props` was registered with the bus.
pub record Properties : Type 0 where
  pub subscribed : Dict (List ℕ)
  pub handlers : ℕ

abbrev pub fresh_properties : Properties
fresh_properties = record { subscribed = []; handlers = 0 }

abbrev pub or_empty : Option (List ℕ) → List ℕ
or_empty none = []
or_empty (some callbacks) = callbacks

abbrev pub register : Dict (List ℕ) → ℕ → ℕ
register [] n = suc n
register (entry ∷ d) n = n

unfoldable pub subscribe : String → ℕ → Properties → Properties
subscribe prop callback p = record {
  subscribed = insert prop (or_empty (lookup prop p.subscribed) ++ (callback ∷ [])) p.subscribed;
  handlers = register p.subscribed p.handlers;
}

-- A task that `_update_props` makes: the callback, the interface, the property and its value, which
-- is none where the task has to ask for it.
abbrev pub Call : Type 0 → Type 0
Call Value = ℕ × String × String × Option Value

module _ {Value : Type 0} (iface : String) where
  abbrev pub runs : String → Option Value → List ℕ → List (Call Value)
  runs prop value [] = []
  runs prop value (callback ∷ callbacks) =
      (callback, iface, prop, value) ∷ runs prop value callbacks

  unfoldable pub update_changed : Dict Value → Properties → List (Call Value)
  update_changed [] p = []
  update_changed ((prop, value) ∷ changed) p =
      runs prop (some value) (or_empty (lookup prop p.subscribed)) ++ update_changed changed p

  unfoldable pub update_invalidated : List String → Properties → List (Call Value)
  update_invalidated [] p = []
  update_invalidated (prop ∷ invalidated) p =
      runs prop none (or_empty (lookup prop p.subscribed)) ++ update_invalidated invalidated p

  unfoldable pub update_props : Dict Value → List String → Properties → List (Call Value)
  update_props changed invalidated p = update_changed changed p ++ update_invalidated invalidated p

-- Subscriptions, in the order in which they are made.
unfoldable pub subscribe_all : List (String × ℕ) → Properties → Properties
subscribe_all [] p = p
subscribe_all ((prop, callback) ∷ more) p = subscribe_all more (subscribe prop callback p)

-- The callbacks for a property, in that order.
abbrev pub called : String → List (String × ℕ) → List ℕ
called prop [] = []
called prop ((q, callback) ∷ more) =
    if q == prop then callback ∷ called prop more else called prop more

abbrev pub once : List (String × ℕ) → ℕ
once [] = 0
once (sub ∷ subs) = 1

module _ {Value : Type 0} (iface : String) where
  -- The calls by the order of the properties, and for each by the order of the subscriptions.
  abbrev pub changed_calls : List (String × ℕ) → Dict Value → List (Call Value)
  changed_calls subs [] = []
  changed_calls subs ((prop, value) ∷ changed) =
      runs iface prop (some value) (called prop subs) ++ changed_calls subs changed

  abbrev pub invalidated_calls : List (String × ℕ) → List String → List (Call Value)
  invalidated_calls subs [] = []
  invalidated_calls subs (prop ∷ invalidated) =
      runs iface prop none (called prop subs) ++ invalidated_calls subs invalidated
