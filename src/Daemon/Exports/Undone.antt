-- ===== src/Daemon/Exports/Undone.antt =====
-- What is on the bus after a start and a shutdown.
use steamos_log_submitter.Base.{
  Option, none, some, Text, List, [], ◌∷◌, ◌++◌, ◌≡◌, ◌≢◌, refl, sym, ap, ◌∙◌,
}
use steamos_log_submitter.Client.{helper_path}
use steamos_log_submitter.Daemon.Exports.{
  HelperModule, Place, Exporter, Helpers, manager, export_extra, export_children, export_helper,
  export_helpers, unexport_extra, unexport_children, unexport_helper, unexport_helpers, setup_dbus,
  shutdown_dbus,
}

-- What the code relies on: `unexport` undoes `export`, and the two do not get in each other's way at
-- different places.
pub record Lawful {Bus : Type 0} (exporter : Exporter Bus) : Type 0 where
  pub unexport-export :
      (place : Place) (bus : Bus) → exporter.unexport place (exporter.export place bus) ≡ bus
  pub unexport-export_other :
      (place other : Place) (bus : Bus)
      → place ≢ other
      → exporter.unexport place (exporter.export other bus)
        ≡ exporter.export other (exporter.unexport place bus)

-- Every place where something is exported, in the order of the calls.
abbrev pub extra_places : Text → List Text → List Place
extra_places path [] = []
extra_places path (iface ∷ ifaces) = (path, iface) ∷ extra_places path ifaces

abbrev pub child_places : Text → List (Text × Text) → List Place
child_places path [] = []
child_places path ((service, iface) ∷ services) =
    (path ++ (b'/' ∷ service), iface) ∷ child_places path services

abbrev pub places_of : HelperModule → Option Text → List Place
places_of h none = []
places_of h (some iface) =
    let path = helper_path h.name in
    (path, iface) ∷ (extra_places path h.extra_ifaces ++ child_places path h.child_services)

abbrev pub helper_places : Helpers → List Place
helper_places [] = []
helper_places ((name, none) ∷ helpers) = helper_places helpers
helper_places ((name, some h) ∷ helpers) = places_of h h.iface ++ helper_places helpers

-- None of them is the given one.
abbrev pub Apart : Place → List Place → Type 0
Apart place [] = Unit
Apart place (other ∷ places) = (place ≢ other) × Apart place places

abbrev pub AllApart : List Place → Type 0
AllApart [] = Unit
AllApart (place ∷ places) = Apart place places × AllApart places

module _ {Bus : Type 0} (exporter : Exporter Bus) (laws : Lawful exporter) where
  unfoldable export_all : List Place → Bus → Bus
  export_all [] bus = bus
  export_all (place ∷ places) bus = export_all places (exporter.export place bus)

  unfoldable unexport_all : List Place → Bus → Bus
  unexport_all [] bus = bus
  unexport_all (place ∷ places) bus = unexport_all places (exporter.unexport place bus)

  export_all-append :
      (ps qs : List Place) (bus : Bus)
      → export_all (ps ++ qs) bus ≡ export_all qs (export_all ps bus)
  unfolding export_all
  export_all-append [] qs bus = refl
  export_all-append (p ∷ ps) qs bus = export_all-append ps qs (exporter.export p bus)

  unexport_all-append :
      (ps qs : List Place) (bus : Bus)
      → unexport_all (ps ++ qs) bus ≡ unexport_all qs (unexport_all ps bus)
  unfolding unexport_all
  unexport_all-append [] qs bus = refl
  unexport_all-append (p ∷ ps) qs bus = unexport_all-append ps qs (exporter.unexport p bus)

  export_extra-places :
      (path : Text) (ifaces : List Text) (bus : Bus)
      → export_extra exporter path ifaces bus ≡ export_all (extra_places path ifaces) bus
  unfolding export_all export_extra
  export_extra-places path [] bus = refl
  export_extra-places path (iface ∷ ifaces) bus =
      export_extra-places path ifaces (exporter.export (path, iface) bus)

  unexport_extra-places :
      (path : Text) (ifaces : List Text) (bus : Bus)
      → unexport_extra exporter path ifaces bus ≡ unexport_all (extra_places path ifaces) bus
  unfolding unexport_all unexport_extra
  unexport_extra-places path [] bus = refl
  unexport_extra-places path (iface ∷ ifaces) bus =
      unexport_extra-places path ifaces (exporter.unexport (path, iface) bus)

  export_children-places :
      (path : Text) (services : List (Text × Text)) (bus : Bus)
      → export_children exporter path services bus ≡ export_all (child_places path services) bus
  unfolding export_all export_children
  export_children-places path [] bus = refl
  export_children-places path ((service, iface) ∷ services) bus =
      export_children-places path services (exporter.export (path ++ (b'/' ∷ service), iface) bus)

  unexport_children-places :
      (path : Text) (services : List (Text × Text)) (bus : Bus)
      → unexport_children exporter path services bus ≡ unexport_all (child_places path services) bus
  unfolding unexport_all unexport_children
  unexport_children-places path [] bus = refl
  unexport_children-places path ((service, iface) ∷ services) bus =
      unexport_children-places path services
        (exporter.unexport (path ++ (b'/' ∷ service), iface) bus)

  export_helper-places :
      (h : HelperModule) (iface : Option Text) (bus : Bus)
      → export_helper exporter h iface bus ≡ export_all (places_of h iface) bus
  unfolding export_all
  export_helper-places h none bus = refl
  export_helper-places h (some iface) bus =
      let path = helper_path h.name in
      rw
        (
          export_children-places path h.child_services,
          export_extra-places path h.extra_ifaces,
          export_all-append (extra_places path h.extra_ifaces) (child_places path h.child_services),
        )
        refl

  unexport_helper-places :
      (h : HelperModule) (iface : Option Text) (bus : Bus)
      → unexport_helper exporter h iface bus ≡ unexport_all (places_of h iface) bus
  unfolding unexport_all
  unexport_helper-places h none bus = refl
  unexport_helper-places h (some iface) bus =
      let path = helper_path h.name in
      rw
        (
          unexport_children-places path h.child_services,
          unexport_extra-places path h.extra_ifaces,
          unexport_all-append (extra_places path h.extra_ifaces)
              (child_places path h.child_services),
        )
        refl

  export_helpers-places :
      (helpers : Helpers) (bus : Bus)
      → export_helpers exporter helpers bus ≡ export_all (helper_places helpers) bus
  unfolding export_all export_helpers
  export_helpers-places [] bus = refl
  export_helpers-places ((name, none) ∷ helpers) bus = export_helpers-places helpers bus
  export_helpers-places ((name, some h) ∷ helpers) bus =
      export_helpers-places helpers (export_helper exporter h h.iface bus)
      ∙ ap (export_all (helper_places helpers)) (export_helper-places h h.iface bus)
      ∙ sym (export_all-append (places_of h h.iface) (helper_places helpers) bus)

  unexport_helpers-places :
      (helpers : Helpers) (bus : Bus)
      → unexport_helpers exporter helpers bus ≡ unexport_all (helper_places helpers) bus
  unfolding unexport_all unexport_helpers
  unexport_helpers-places [] bus = refl
  unexport_helpers-places ((name, none) ∷ helpers) bus = unexport_helpers-places helpers bus
  unexport_helpers-places ((name, some h) ∷ helpers) bus =
      unexport_helpers-places helpers (unexport_helper exporter h h.iface bus)
      ∙ ap (unexport_all (helper_places helpers)) (unexport_helper-places h h.iface bus)
      ∙ sym (unexport_all-append (places_of h h.iface) (helper_places helpers) bus)

  unexport-export_all :
      (place : Place) (places : List Place) (bus : Bus)
      → Apart place places
      → exporter.unexport place (export_all places bus)
        ≡ export_all places (exporter.unexport place bus)
  unfolding export_all
  unexport-export_all place [] bus h = refl
  unexport-export_all place (other ∷ places) bus (apart, h) =
      unexport-export_all place places (exporter.export other bus) h
      ∙ ap (export_all places) (laws.unexport-export_other place other bus apart)

  unexport_all-export_all :
      (places : List Place) (bus : Bus)
      → AllApart places
      → unexport_all places (export_all places bus) ≡ bus
  unfolding export_all unexport_all
  unexport_all-export_all [] bus h = refl
  unexport_all-export_all (place ∷ places) bus (apart, h) =
      ap (unexport_all places) (
        unexport-export_all place places (exporter.export place bus) apart
        ∙ ap (export_all places) (laws.unexport-export place bus))
      ∙ unexport_all-export_all places bus h

  -- For a bus whose `unexport` undoes `export` and where different places do not get in each other's
  -- way: after `_setup_dbus`, and then `shutdown` with the same helpers, the bus is as it was
  -- before, if no path and interface is exported twice. So `shutdown` takes off the manager, every
  -- interface of every helper and every child service, each at the path where it was put.
  pub shutdown_dbus-setup_dbus :
      (helpers : Helpers) (bus : Bus)
      → AllApart (manager ∷ helper_places helpers)
      → shutdown_dbus exporter helpers (setup_dbus exporter helpers bus) ≡ bus
  unfolding shutdown_dbus setup_dbus export_all unexport_all
  shutdown_dbus-setup_dbus helpers bus h =
      unexport_helpers-places helpers (exporter.unexport manager (setup_dbus exporter helpers bus))
      ∙ ap (λ b. unexport_all (helper_places helpers) (exporter.unexport manager b))
          (export_helpers-places helpers (exporter.export manager bus))
      ∙ unexport_all-export_all (manager ∷ helper_places helpers) bus h
