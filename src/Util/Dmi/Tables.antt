-- ===== src/Util/Dmi/Tables.antt =====
-- The tables of `get_dmi_info` in util.py: the product names of each vendor, and the DMI field that
-- tells a vendor's products apart.
use steamos_log_submitter.Base.{String, [], ◌∷◌}
use steamos_log_submitter.Base.Dict.{Dict}

pub data Field : Type 0 where
  board_name product_name : Field

abbrev pub anbernic : Dict String
anbernic = ("Win600", "Anbernic Win600") ∷ []

abbrev pub aokzoe : Dict String
aokzoe =
    ("AOKZOE A1 AR07", "AOKZOE A1")
    ∷ ("AOKZOE A1 Pro", "AOKZOE A1 Pro")
    ∷ ("AOKZOE A1X", "AOKZOE A1X")
    ∷ []

abbrev pub asustek_computer_inc : Dict String
asustek_computer_inc =
    ("RC71L", "ROG Ally")
    ∷ ("RC72LA", "ROG Ally X")
    ∷ ("RC73XA", "ROG Xbox Ally X")
    ∷ ("RC73YA", "ROG Xbox Ally")
    ∷ ("GZ302EA", "ROG Flow Z13 (2025)")
    ∷ []

abbrev pub ayadevice : Dict String
ayadevice = ("AYA NEO FOUNDER", "AYANEO 2021") ∷ []

abbrev pub ayaneo : Dict String
ayaneo =
    ("AYA NEO 2021", "AYANEO 2021")
    ∷ ("AYANEO 2021", "AYANEO 2021")
    ∷ ("AYANEO 2021 Pro", "AYANEO 2021 Pro")
    ∷ ("AYANEO 2021 Pro Retro Power", "AYANEO 2021 Pro")
    ∷ ("AYANEO 2", "AYANEO 2")
    ∷ ("AYANEO 3", "AYANEO 3")
    ∷ ("GEEK", "AYANEO GEEK")
    ∷ ("AYANEO 2S", "AYANEO 2S")
    ∷ ("GEEK 1S", "AYANEO GEEK 1S")
    ∷ ("AYANEO GEEK 1S", "AYANEO GEEK 1S")
    ∷ ("AIR", "AYANEO AIR")
    ∷ ("AIR Pro", "AYANEO AIR Pro")
    ∷ ("AIR 1S", "AYANEO AIR 1S")
    ∷ ("AIR 1S Limited", "AYANEO AIR 1S Limited")
    ∷ ("AB05-AMD", "AYANEO AIR Plus AMD")
    ∷ ("AB05-Intel", "AYANEO AIR Plus Intel")
    ∷ ("AB05-Mendocino", "AYANEO AIR Plus Mendocino")
    ∷ ("FLIP DS", "AYANEO FLIP")
    ∷ ("FLIP KB", "AYANEO FLIP")
    ∷ ("FLIP 1S DS", "AYANEO FLIP 1S")
    ∷ ("AYANEO KUN", "AYANEO KUN")
    ∷ ("NEXT", "AYANEO NEXT")
    ∷ ("AYANEO NEXT", "AYANEO NEXT")
    ∷ ("NEXT Advance", "AYANEO NEXT Advance")
    ∷ ("AYANEO NEXT Advance", "AYANEO NEXT Advance")
    ∷ ("NEXT Lite", "AYANEO NEXT Lite")
    ∷ ("NEXT Pro", "AYANEO NEXT Pro")
    ∷ ("AYANEO NEXT Pro", "AYANEO NEXT Pro")
    ∷ ("SLIDE", "AYANEO SLIDE")
    ∷ []

abbrev pub aya_neo : Dict String
aya_neo = ("AYA NEO FOUNDER", "AYANEO 2021") ∷ []

abbrev pub ayn : Dict String
ayn =
    ("Loki Max", "Ayn Loki Max")
    ∷ ("Loki MiniPro", "Ayn Loki MiniPro")
    ∷ ("Loki Zero", "Ayn Loki Zero")
    ∷ []

abbrev pub gpd : Dict String
gpd =
    ("G1618-03", "GPD WIN 3")
    ∷ ("G1618-04", "GPD WIN 4")
    ∷ ("G1618-05", "GPD WIN 5")
    ∷ ("G1619-04", "GPD WIN Max 2")
    ∷ ("G1617-01", "GPD WIN Mini")
    ∷ []

abbrev pub lenovo : Dict String
lenovo =
    ("83E1", "Legion Go")
    ∷ ("83L3", "Legion Go S")
    ∷ ("83N6", "Legion Go S")
    ∷ ("83Q2", "Legion Go S")
    ∷ ("83Q3", "Legion Go S")
    ∷ ("83N0", "Legion Go 2")
    ∷ ("83N1", "Legion Go 2")
    ∷ []

abbrev pub micro_star_international_co_ltd : Dict String
micro_star_international_co_ltd =
    ("MS-1T41", "MSI Claw A1M")
    ∷ ("MS-1T42", "MSI Claw 7 AI+ A2VM")
    ∷ ("MS-1T52", "MSI Claw 8 AI+ A2VM")
    ∷ ("MS-1T8K", "MSI Claw A8 BZ2EM")
    ∷ []

abbrev pub mystenlabs_inc : Dict String
mystenlabs_inc = ("SuiPlay 0X1", "SuiPlay 0X1") ∷ []

abbrev pub one_netbook : Dict String
one_netbook =
    ("ONE XPLAYER", "ONEXPLAYER")
    ∷ ("ONEXPLAYER", "ONEXPLAYER")
    ∷ ("ONEXPLAYER mini A07", "ONEXPLAYER mini A07")
    ∷ ("ONEXPLAYER Mini Pro", "ONEXPLAYER Mini Pro")
    ∷ ("ONEXPLAYER 2 ARP23", "ONEXPLAYER 2")
    ∷ ("ONEXPLAYER 2 PRO ARP23", "ONEXPLAYER 2 Pro")
    ∷ ("ONEXPLAYER 2 PRO ARP23 EVA-01", "ONEXPLAYER 2 Pro")
    ∷ ("ONEXPLAYER F1", "ONEXPLAYER OneXFly F1")
    ∷ ("ONEXPLAYER F1 EVA-01", "ONEXPLAYER OneXFly F1 EVA-01")
    ∷ ("ONEXPLAYER F1 OLED", "ONEXPLAYER OneXFly F1 OLED")
    ∷ ("ONEXPLAYER F1Pro", "ONEXPLAYER OneXFly F1 Pro")
    ∷ ("ONEXPLAYER X1 A", "ONEXPLAYER X1 AMD")
    ∷ ("ONEXPLAYER X1 i", "ONEXPLAYER X1 Intel")
    ∷ ("ONEXPLAYER X1 mini", "ONEXPLAYER X1 mini")
    ∷ ("ONEXPLAYER G1 A", "ONEXPLAYER G1 AMD")
    ∷ ("ONEXPLAYER G1 i", "ONEXPLAYER G1 Intel")
    ∷ []

abbrev pub orangepi : Dict String
orangepi = ("NEO-01", "OrangePi NEO") ∷ []

abbrev pub zotac : Dict String
zotac = ("G0A1W", "ZONE") ∷ ("G1A1W", "ZONE") ∷ []

abbrev pub products : Dict (Dict String)
products =
    ("Anbernic", anbernic)
    ∷ ("AOKZOE", aokzoe)
    ∷ ("ASUSTeK COMPUTER INC.", asustek_computer_inc)
    ∷ ("AYADEVICE", ayadevice)
    ∷ ("AYANEO", ayaneo)
    ∷ ("AYA NEO", aya_neo)
    ∷ ("ayn", ayn)
    ∷ ("GPD", gpd)
    ∷ ("LENOVO", lenovo)
    ∷ ("Micro-Star International Co., Ltd.", micro_star_international_co_ltd)
    ∷ ("MystenLabs, Inc.", mystenlabs_inc)
    ∷ ("ONE-NETBOOK", one_netbook)
    ∷ ("OrangePi", orangepi)
    ∷ ("ZOTAC", zotac)
    ∷ ("ONE-NETBOOK TECHNOLOGY CO., LTD.", one_netbook)
    ∷ []

abbrev pub lookup_table : Dict Field
lookup_table =
    ("Anbernic", product_name)
    ∷ ("AOKZOE", product_name)
    ∷ ("ASUSTeK COMPUTER INC.", board_name)
    ∷ ("AYA NEO", product_name)
    ∷ ("AYANEO", product_name)
    ∷ ("ayn", product_name)
    ∷ ("GPD", product_name)
    ∷ ("LENOVO", product_name)
    ∷ ("Micro-Star International Co., Ltd.", board_name)
    ∷ ("MystenLabs, Inc.", product_name)
    ∷ ("ONE-NETBOOK", product_name)
    ∷ ("ONE-NETBOOK TECHNOLOGY CO., LTD.", product_name)
    ∷ ("OrangePi", product_name)
    ∷ ("ZOTAC", board_name)
    ∷ []
