-- ===== src/Util/Dmi.antt =====
-- `get_dmi_info` of util.py, over the contents of the DMI files (none for a missing file).
pub mod Tables
pub mod Laws
use steamos_log_submitter.Base.{
  String, Bool, true, false, List, [], ◌∷◌, ◌++◌, Option, none, some, ◌==◌, if◌then◌else◌,
}
use steamos_log_submitter.Base.Dict.{Dict, lookup}
use Tables.{Field, board_name, product_name, products, lookup_table}

pub record Dmi : Type 0 where
  pub sys_vendor : Option String
  pub board_name : Option String
  pub product_name : Option String
  pub bios_version : Option String

abbrev pub read : Dmi → Field → Option String
read dmi board_name = dmi.board_name
read dmi product_name = dmi.product_name

-- `if value: info[key] = value`
abbrev pub entry : String → Option String → Dict String
entry key none = []
entry key (some value) = if value == "" then [] else (key, value) ∷ []

-- `products[sys_vendor][x]`, where x may be None
abbrev pub find : Dict String → Option String → Option String
find table none = none
find table (some name) = lookup name table

abbrev pub first_of_two {ℓ} : {A : Type ℓ} → Option A → Option A → Option A
first_of_two none b = b
first_of_two (some a) b = some a

-- `lookup_table.get(sys_vendor)`: the field's content
abbrev pub chosen : Dmi → Option Field → Option String
chosen dmi none = none
chosen dmi (some field) = read dmi field

-- The chain of `elif`s: the vendor's own field, then the product name, then the board name.
abbrev pub product_of : Dmi → String → Dict String → Option String
product_of dmi vendor table =
    first_of_two (find table (chosen dmi (lookup vendor lookup_table)))
      (first_of_two (find table dmi.product_name) (find table dmi.board_name))

abbrev pub named : String → Option String → Dict String
named vendor none = []
named vendor (some product) = ("vendor", vendor) ∷ ("product", product) ∷ []

abbrev pub other_vendor : Dmi → String → Option (Dict String) → Dict String
other_vendor dmi vendor none = []
other_vendor dmi vendor (some table) = named vendor (product_of dmi vendor table)

abbrev pub vendor_info : Dmi → Option String → Dict String
vendor_info dmi none = []
vendor_info dmi (some vendor) =
    if vendor == "Valve"
    then ("vendor", vendor) ∷ (entry "bios" dmi.bios_version ++ entry "product" dmi.product_name)
    else other_vendor dmi vendor (lookup vendor products)

unfoldable pub get_dmi_info : Dmi → Dict String
get_dmi_info dmi = vendor_info dmi dmi.sys_vendor
