-- ===== src/Sysinfo/Aligned.antt =====
-- Which section the results of helpers/sysinfo.py are filed under.
use steamos_log_submitter.Base.{String, true, false, [], ◌∷◌, ◌++◌, none, some, ◌≡◌, arith, eq_iff}
use text.Mathlib.TextPositions.{eq_refl}
use steamos_log_submitter.Base.Dict.{Dict, lookup}
use steamos_log_submitter.Base.Json.{Json}
use steamos_log_submitter.Sysinfo.{DeviceType, gather, zip_devices, devices}

abbrev pub AllEnabled : Dict DeviceType → Type 0
AllEnabled [] = Unit
AllEnabled ((name, t) ∷ types) = (t.enabled ≡ true) × AllEnabled types

-- The first disabled type and the one after it, which is enabled and lists something.
module _ (x y : String) (dx dy : DeviceType) (v : Json) (back : Dict DeviceType)
    (off : dx.enabled ≡ false) (on : dy.enabled ≡ true) (lists : dy.listed ≡ some v) where
  zip_skewed :
      (front : Dict DeviceType)
      → AllEnabled front
      → lookup x front ≡ none
      → lookup x (
          zip_devices
            (front ++ ((x, dx) ∷ (y, dy) ∷ back))
            (gather (front ++ ((x, dx) ∷ (y, dy) ∷ back))))
        ≡ some v
  unfolding gather zip_devices lookup
  zip_skewed [] _ fresh = ground (arith, eq_refl x)
  zip_skewed ((n, t) ∷ front) (enabled, rest) fresh =
      ground (arith, eq_iff n x, zip_skewed front rest)

  -- The types before `x` are enabled, `x` is not, and the next one is and lists something. Then what
  -- that one lists is filed under `x`, whatever the other types list: results are matched with all
  -- names, though there are none for the disabled types.
  pub devices_skewed :
      (front : Dict DeviceType)
      → AllEnabled front
      → lookup x front ≡ none
      → lookup x (devices (front ++ ((x, dx) ∷ (y, dy) ∷ back))) ≡ some v
  unfolding devices
  devices_skewed front enabled fresh = zip_skewed front enabled fresh
