-- ===== src/Sysinfo/Devices/Tests.antt =====
-- A Bluetooth device without an alias.
use steamos_log_submitter.Base.{
  String, List, [], map, Result, ok, raise, other, Text, codes, if◌then◌else◌, ◌==◌, ◌≡◌, refl,
}
use steamos_log_submitter.Base.Dict.{Dict}
use steamos_log_submitter.Base.Json.{Json, string, bool, num}
use steamos_log_submitter.Util.Case.{snake_case, snake_loop, separated, last_alpha, lower}
use steamos_log_submitter.Sysinfo.Devices.{
  Value, text, flag, number, Convert, Row, is_missing, convert_all, bluetooth_rows, battery_rows,
  network_rows,
}
use steamos_log_submitter.Sysinfo.Devices.Converted.{Entered, convert_all_lem}

abbrev convert : Convert → Value → Result Json
convert c (text s) = ok (string s)
convert c (flag b) = ok (bool b)
convert c (number n) = ok (num n)

abbrev property : String → Result Value
property name =
    if name == "Alias"
    then raise (other "DBusError")
    else if name == "Class"
    then ok (number 5)
    else ok (text "x")

convert_all_lem_example :
    (d : Dict Json) × (convert_all convert is_missing property bluetooth_rows [] ≡ ok d)
    × Entered convert is_missing property bluetooth_rows [] d
convert_all_lem_example =
    convert_all_lem convert is_missing property bluetooth_rows
      (refl, (refl, (refl, (refl, (refl, (refl, (refl, (refl, (refl, (refl, (refl, tt)))))))))))
      (tt, (refl, (tt, (tt, (tt, (tt, (tt, (tt, (tt, (tt, (tt, tt)))))))))))

-- The keys of the tables are those that the code computes.
abbrev snaked : List Row → List Text
snaked rows = map (λ row. snake_case (codes row.0)) rows

abbrev lowered : List Row → List Text
lowered rows = map (λ row. map lower (codes row.0)) rows

abbrev key_codes : List Row → List Text
key_codes rows = map (λ row. codes row.1) rows

battery_keys : snaked battery_rows ≡ key_codes battery_rows
unfolding snake_case snake_loop separated last_alpha
battery_keys = refl

network_keys : snaked network_rows ≡ key_codes network_rows
unfolding snake_case snake_loop separated last_alpha
network_keys = refl

bluetooth_keys : lowered bluetooth_rows ≡ key_codes bluetooth_rows
bluetooth_keys = refl
