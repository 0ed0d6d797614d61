-- ===== src/Daemon/Exports.antt =====
-- steamos_log_submitter/daemon.py: what `_setup_dbus` puts on the bus and `shutdown` takes off it, and
-- the parts of `DaemonInterface` that go over all helpers.
pub mod Undone
pub mod Latest
use steamos_log_submitter.Base.{
  ℕ, ◌/◌, ◌++◌, List, [], ◌∷◌, Option, none, some, Text, codes, Bool, true, false, map, String,
  ◌==◌,
}
use steamos_log_submitter.Helper.Collect.{Stamp, last_of, raise_to}
use steamos_log_submitter.Helper.Switches.{get_on, on_or_off}
use steamos_log_submitter.Config.{Config, get_item, set_item, write_config}
use steamos_log_submitter.Base.{Result, ok, raise}
use steamos_log_submitter.Client.{dbus_root, helper_path, prefixed}

-- A helper as `create_helper` gives it: its name, the names of its interfaces, its child services
-- with the names of theirs, the entry `newest` of its section, and its logs in a directory.
pub record HelperModule : Type 0 where
  pub name : Text
  pub iface : Option Text
  pub extra_ifaces : List Text
  pub child_services : List (Text × Text)
  pub newest : Option Stamp
  pub logs : Text → List Text

-- What `list_helpers` names, each with what `create_helper` gives for it.
abbrev pub Helpers : Type 0
Helpers = List (Text × Option HelperModule)

-- A call of `export` or of `unexport`: the path and the name of the interface.
abbrev pub Place : Type 0
Place = Text × Text

abbrev pub manager : Place
manager = (dbus_root ++ codes "/Manager", codes "com.steampowered.SteamOSLogSubmitter.Manager")

-- `system_bus.export` and `unexport` of dbus_next, on whatever the bus is.
pub record Exporter (Bus : Type 0) : Type 0 where
  pub export : Place → Bus → Bus
  pub unexport : Place → Bus → Bus

module _ {Bus : Type 0} (exporter : Exporter Bus) where
  -- `_setup_dbus`: the loops over the extra interfaces, the child services and the helpers
  unfoldable pub export_extra : Text → List Text → Bus → Bus
  export_extra path [] bus = bus
  export_extra path (iface ∷ ifaces) bus =
      export_extra path ifaces (exporter.export (path, iface) bus)

  unfoldable pub export_children : Text → List (Text × Text) → Bus → Bus
  export_children path [] bus = bus
  export_children path ((service, iface) ∷ services) bus =
      export_children path services (exporter.export (path ++ (b'/' ∷ service), iface) bus)

  abbrev pub export_helper : HelperModule → Option Text → Bus → Bus
  export_helper h none bus = bus
  export_helper h (some iface) bus =
      let path = helper_path h.name in
      export_children path h.child_services
        (export_extra path h.extra_ifaces (exporter.export (path, iface) bus))

  unfoldable pub export_helpers : Helpers → Bus → Bus
  export_helpers [] bus = bus
  export_helpers ((name, none) ∷ helpers) bus = export_helpers helpers bus
  export_helpers ((name, some h) ∷ helpers) bus =
      export_helpers helpers (export_helper h h.iface bus)

  unfoldable pub setup_dbus : Helpers → Bus → Bus
  setup_dbus helpers bus = export_helpers helpers (exporter.export manager bus)

  -- `shutdown`, where it has a bus
  unfoldable pub unexport_extra : Text → List Text → Bus → Bus
  unexport_extra path [] bus = bus
  unexport_extra path (iface ∷ ifaces) bus =
      unexport_extra path ifaces (exporter.unexport (path, iface) bus)

  unfoldable pub unexport_children : Text → List (Text × Text) → Bus → Bus
  unexport_children path [] bus = bus
  unexport_children path ((service, iface) ∷ services) bus =
      unexport_children path services (exporter.unexport (path ++ (b'/' ∷ service), iface) bus)

  abbrev pub unexport_helper : HelperModule → Option Text → Bus → Bus
  unexport_helper h none bus = bus
  unexport_helper h (some iface) bus =
      let path = helper_path h.name in
      unexport_children path h.child_services
        (unexport_extra path h.extra_ifaces (exporter.unexport (path, iface) bus))

  unfoldable pub unexport_helpers : Helpers → Bus → Bus
  unexport_helpers [] bus = bus
  unexport_helpers ((name, none) ∷ helpers) bus = unexport_helpers helpers bus
  unexport_helpers ((name, some h) ∷ helpers) bus =
      unexport_helpers helpers (unexport_helper h h.iface bus)

  unfoldable pub shutdown_dbus : Helpers → Bus → Bus
  shutdown_dbus helpers bus = unexport_helpers helpers (exporter.unexport manager bus)

-- `DaemonInterface.list_type`
unfoldable pub list_type : Text → Helpers → List Text
list_type base [] = []
list_type base ((name, none) ∷ helpers) = list_type base helpers
list_type base ((name, some h) ∷ helpers) = prefixed name (h.logs base) ++ list_type base helpers

-- `DaemonInterface.LastCollected`
unfoldable pub latest : Helpers → Option ℕ → Option ℕ
latest [] newest = newest
latest ((name, none) ∷ helpers) newest = latest helpers newest
latest ((name, some h) ∷ helpers) newest = elim (last_of h.newest) [
  | none ↦ latest helpers newest
  | some t ↦ latest helpers (raise_to t newest)
]

abbrev pub seconds : Option ℕ → ℕ
seconds none = 0
seconds (some t) = t / 1000

unfoldable pub last_collected : Helpers → ℕ
last_collected helpers = seconds (latest helpers none)

-- The properties `CollectEnabled` and `SubmitEnabled`, for their keys `collect` and `submit`
unfoldable pub switch_enabled : String → Config → Bool
switch_enabled key c = get_on (get_item [] "sls" key c)

unfoldable pub set_switch : String → Bool → Config → Result (Unit {0}) × Config
set_switch key enabled c = write_config (set_item "sls" key (on_or_off enabled) c)
