-- ===== src/Sysinfo/Devices.antt =====
-- steamos_log_submitter/helpers/sysinfo.py: the device types that read the properties of D-Bus
-- objects: `BluetoothType.list`, `BatteriesType.list` and `NetworkType.list`.
pub mod Converted
mod Tests
use steamos_log_submitter.Base.{
  ℕ, ◌*◌, String, ◌<>◌, Bool, true, false, List, [], ◌∷◌, ◌++◌, map, Option, none, some, Result, ok,
  raise, ◌>>=◌, Exc, key_error, other, nat_eq, if◌then◌else◌, ◌==◌, starts_with, ◌||◌,
}
use steamos_log_submitter.Base.Dict.{Dict, insert, lookup}
use steamos_log_submitter.Base.Json.{Json, string, num, bool}

-- A property as the bus sends it, and the constructors that the tables name.
pub data Value : Type 0 where
  text : String → Value
  flag : Bool → Value
  number : ℕ → Value

pub data Convert : Type 0 where
  to_str to_bool to_int to_float to_hex : Convert

-- A row of `conversions`: the property, its key in the result, and the constructor.
abbrev pub Row : Type 0
Row = String × String × Convert

-- The exceptions that the loop ignores.
abbrev pub is_key_error : Exc → Bool
is_key_error key_error = true
is_key_error _ = false

abbrev pub is_missing : Exc → Bool
is_missing key_error = true
is_missing (other name) = name == "DBusError"
is_missing _ = false

-- `str`, `bool`, `int`, `float` and `hex` are `convert`.
module _ (convert : Convert → Value → Result Json) where
  -- `convert(await props[name])`
  abbrev pub converted : (String → Result Value) → Row → Result Json
  converted property (name, key, c) = property name >>= convert c

  -- One round: the entry is there, or the exception is ignored, or it goes on.
  abbrev pub note : (Exc → Bool) → Row → Result Json → Dict Json → Result (Dict Json)
  note caught (name, key, c) (ok j) d = ok (insert key j d)
  note caught (name, key, c) (raise e) d = if caught e then ok d else raise e

  unfoldable pub convert_all :
      (Exc → Bool) → (String → Result Value) → List Row → Dict Json → Result (Dict Json)
  convert_all caught property [] d = ok d
  convert_all caught property (row ∷ rows) d =
      note caught row (converted property row) d >>= λ d'. convert_all caught property rows d'

-- The tables, with the keys written out.
abbrev pub bluetooth_rows : List Row
bluetooth_rows =
    ("Address", "address", to_str)
    ∷ ("Alias", "alias", to_str)
    ∷ ("Blocked", "blocked", to_bool)
    ∷ ("Bonded", "bonded", to_bool)
    ∷ ("Class", "class", to_hex)
    ∷ ("Connected", "connected", to_bool)
    ∷ ("Icon", "icon", to_str)
    ∷ ("Modalias", "modalias", to_str)
    ∷ ("Name", "name", to_str)
    ∷ ("Paired", "paired", to_bool)
    ∷ ("Trusted", "trusted", to_bool)
    ∷ []

abbrev pub battery_rows : List Row
battery_rows =
    ("EnergyFull", "energy_full", to_float)
    ∷ ("EnergyFullDesign", "energy_full_design", to_float)
    ∷ ("Model", "model", to_str)
    ∷ ("NativePath", "native_path", to_str)
    ∷ ("Online", "online", to_bool)
    ∷ ("Type", "type", to_int)
    ∷ []

abbrev pub network_rows : List Row
network_rows = ("Interface", "interface", to_str) ∷ ("Mtu", "mtu", to_int) ∷ []

abbrev pub nm_device_types : List (ℕ × String)
nm_device_types =
    (0, "unknown")
    ∷ (1, "ethernet")
    ∷ (2, "wifi")
    ∷ (5, "bt")
    ∷ (6, "olpc_mesh")
    ∷ (7, "wimax")
    ∷ (8, "modem")
    ∷ (9, "infiniband")
    ∷ (10, "bond")
    ∷ (11, "vlan")
    ∷ (12, "adsl")
    ∷ (13, "bridge")
    ∷ (14, "generic")
    ∷ (15, "team")
    ∷ (16, "tun")
    ∷ (17, "tunnel")
    ∷ (18, "macvlan")
    ∷ (19, "vxlan")
    ∷ (20, "veth")
    ∷ (21, "macsec")
    ∷ (22, "dummy")
    ∷ (23, "ppp")
    ∷ (24, "ovs_interface")
    ∷ (25, "ovs_port")
    ∷ (26, "ovs_bridge")
    ∷ (27, "wpan")
    ∷ (28, "6lowpan")
    ∷ (29, "wireguard")
    ∷ (30, "wifi_p2p")
    ∷ (31, "vrf")
    ∷ []

unfoldable pub type_name : ℕ → List (ℕ × String) → Option String
type_name n [] = none
type_name n ((k, name) ∷ types) = if nat_eq k n then some name else type_name n types

-- What the bus says: the children of an object, and a property of an interface of an object.
pub record Objects : Type 0 where
  pub children : String → Result (List String)
  pub property : String → String → String → Result Value

-- `str(...).startswith('lo')`
abbrev pub is_loopback : Json → Bool
is_loopback (string interface) = starts_with interface "lo"
is_loopback _ = false

abbrev pub kept : Option (Dict Json) → List (Dict Json) → List (Dict Json)
kept none ds = ds
kept (some d) ds = d ∷ ds

-- `adapter.split('/')[-1]` is `last_part`.
module _ (convert : Convert → Value → Result Json) (bus : Objects) where
  -- one device of `BluetoothType.list`
  abbrev pub bluetooth_device : (String → String) → String → String → Result (Dict Json)
  bluetooth_device last_part adapter dev =
      convert_all convert is_missing (bus.property dev "org.bluez.Device1") bluetooth_rows []
      >>= λ d. ok (insert "adapter" (string (last_part adapter)) d)

  unfoldable pub each_device :
      (String → Result (Dict Json)) → List String → Result (List (Dict Json))
  each_device device [] = ok []
  each_device device (child ∷ children) =
      device child >>= λ d. each_device device children >>= λ ds. ok (d ∷ ds)

  unfoldable pub each_adapter : (String → String) → List String → Result (List (Dict Json))
  each_adapter last_part [] = ok []
  each_adapter last_part (adapter ∷ adapters) = bus.children adapter >>= λ known.
      each_device (bluetooth_device last_part adapter) known >>= λ ds.
      each_adapter last_part adapters >>= λ rest. ok (ds ++ rest)

  unfoldable pub bluetooth_list : (String → String) → Result (List (Dict Json))
  bluetooth_list last_part = bus.children "/org/bluez" >>= each_adapter last_part

  -- `BatteriesType.list`
  abbrev pub battery_device : String → Result (Dict Json)
  battery_device child =
      convert_all convert is_key_error (bus.property child "org.freedesktop.UPower.Device")
        battery_rows []

  unfoldable pub battery_list : Result (List (Dict Json))
  battery_list = bus.children "/org/freedesktop/UPower/devices" >>= each_device battery_device

  -- `NetworkType.list`
  abbrev pub device_type_name : (ℕ → String) → ℕ → String
  device_type_name show n = elim (type_name n nm_device_types) [
    | none ↦ "unknown_" <> show n
    | some name ↦ name
  ]

  abbrev pub as_number : Value → Result ℕ
  as_number (number n) = ok n
  as_number _ = raise (other "AssertionError")

  -- The properties of the two types of devices that have a bit rate.
  abbrev pub wired : (String → Result Value) → Dict Json → Result (Dict Json)
  wired property d = property "Carrier" >>= λ v. convert to_bool v >>= λ carrier. elim carrier [
    | bool true ↦ property "Speed" >>= as_number >>= λ speed.
        ok (insert "bitrate" (num (speed * 1000)) (insert "carrier" (bool true) d))
    | j ↦ ok (insert "carrier" j d)
  ]

  abbrev pub wireless : (String → Result Value) → Dict Json → Result (Dict Json)
  wireless property d =
      property "Bitrate" >>= as_number >>= λ rate. ok (insert "bitrate" (num rate) d)

  abbrev pub link : ℕ → String → Dict Json → Result (Dict Json)
  link n child d =
      if nat_eq n 1
      then wired (bus.property child "org.freedesktop.NetworkManager.Device.Wired") d
      else if nat_eq n 2
      then wireless (bus.property child "org.freedesktop.NetworkManager.Device.Wireless") d
      else ok d

  abbrev pub network_device : (ℕ → String) → String → Result (Option (Dict Json))
  network_device show child =
      let property = bus.property child "org.freedesktop.NetworkManager.Device" in
      property "Interface" >>= convert to_str >>= λ interface. elim (is_loopback interface) [
        | true ↦ ok none
        | false ↦ property "DeviceType" >>= as_number >>= λ n.
            convert_all convert is_key_error property network_rows
              (("device_type", string (device_type_name show n)) ∷ [])
            >>= link n child
            >>= λ d. ok (some d)
      ]

  unfoldable pub each_network : (ℕ → String) → List String → Result (List (Dict Json))
  each_network show [] = ok []
  each_network show (child ∷ children) =
      network_device show child >>= λ d. each_network show children >>= λ rest. ok (kept d rest)

  unfoldable pub network_list : (ℕ → String) → Result (List (Dict Json))
  network_list show = bus.children "/org/freedesktop/NetworkManager/Devices" >>= each_network show
