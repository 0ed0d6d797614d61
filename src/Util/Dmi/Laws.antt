-- ===== src/Util/Dmi/Laws.antt =====
-- What `get_dmi_info` says of a device whose vendor has a table.
use steamos_log_submitter.Base.{String, false, Option, none, some, ◌≡◌, ◌⊎◌, inl, inr, refl, ◌==◌}
use steamos_log_submitter.Base.Dict.{Dict, lookup}
use steamos_log_submitter.Util.Dmi.{
  Dmi, Field, board_name, product_name, products, lookup_table, find, first_of_two, chosen, named,
  product_of, get_dmi_info, vendor_info,
}

-- The result is one of the two values, and none only if both are.
abbrev pub Among : Option String → Option String → Option String → Type 0
Among a b none = (a ≡ none) × (b ≡ none)
Among a b (some c) = (a ≡ some c) ⊎ (b ≡ some c)

Among-first : (a b : Option String) → Among a b (first_of_two a b)
Among-first none none = (refl, refl)
Among-first none (some b) = inr refl
Among-first (some a) b = inl refl

Among-second : (a b : Option String) → Among a b (first_of_two b (first_of_two a b))
Among-second none none = (refl, refl)
Among-second (some a) none = inl refl
Among-second a (some b) = inr refl

Among-again : (a b : Option String) → Among a b (first_of_two a (first_of_two a b))
Among-again none b = Among-first none b
Among-again (some a) b = inl refl

Among-product_of :
    (field : Option Field) (table : Dict String) (dmi : Dmi)
    → Among (find table dmi.product_name) (find table dmi.board_name) (
        first_of_two
          (find table (chosen dmi field))
          (first_of_two (find table dmi.product_name) (find table dmi.board_name)))
Among-product_of none table dmi =
    Among-first (find table dmi.product_name) (find table dmi.board_name)
Among-product_of (some board_name) table dmi =
    Among-second (find table dmi.product_name) (find table dmi.board_name)
Among-product_of (some product_name) table dmi =
    Among-again (find table dmi.product_name) (find table dmi.board_name)

lookup-named :
    (vendor : String) (product : Option String) → lookup "product" (named vendor product) ≡ product
unfolding lookup
lookup-named vendor none = refl
lookup-named vendor (some product) = refl

info_of :
    (dmi : Dmi) {vendor : String} {table : Dict String}
    → dmi.sys_vendor ≡ some vendor
    → (vendor == "Valve") ≡ false
    → lookup vendor products ≡ some table
    → get_dmi_info dmi ≡ named vendor (product_of dmi vendor table)
unfolding get_dmi_info
info_of dmi known not_valve found = rw (known, vendor_info) (rw (not_valve, found) refl)

-- The vendor is not Valve and has a table of products. Then the product in the result, if there is
-- one, is what the table has for the device's product name or for its board name; and there is none
-- only if the table has neither, whichever of the two the vendor's products are told apart by.
pub get_dmi_info-Among :
    (dmi : Dmi) {vendor : String} {table : Dict String}
    → dmi.sys_vendor ≡ some vendor
    → (vendor == "Valve") ≡ false
    → lookup vendor products ≡ some table
    → Among
        (find table dmi.product_name)
        (find table dmi.board_name)
        (lookup "product" (get_dmi_info dmi))
get_dmi_info-Among dmi {vendor} {table} known not_valve found =
    rw (info_of dmi known not_valve found, lookup-named)
      (Among-product_of (lookup vendor lookup_table) table dmi)
