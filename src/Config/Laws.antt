-- ===== src/Config/Laws.antt =====
-- Reading back what was set.
use steamos_log_submitter.Base.{
  String, ◌&&◌, [], ◌∷◌, none, some, ◌≡◌, refl, arith, eq_iff, ◌==◌, ok, if◌then◌else◌,
  Option-cases, Bool-cases, inl, inr,
}
use steamos_log_submitter.Base.Dict.{
  Dict, NodupKeys, lookup, lookup-nil, lookup-insert, lookup-remove,
}
use steamos_log_submitter.Config.{
  Parser, Config, value, set, remove_option, get_item, set_item, first_of, read_options, read_file,
}

pub value-set :
    (section option s o v : String) (p : Parser)
    → value (set section option v p) s o
      ≡ (if section == s && option == o then some v else value p s o)
unfolding value set
value-set section option s o v p = rw lookup-insert (elim (Bool-cases (section == s)) [
  | inl same ↦ rw (same, ← (eq_iff section s).0 same) (rw lookup-insert refl)
  | inr differ ↦ rw differ refl
])

pub value-remove_option :
    (section option s o : String) (p : Parser)
    → value (remove_option section option p) s o
      ≡ (if section == s && option == o then none else value p s o)
unfolding value remove_option
value-remove_option section option s o p = elim (Option-cases (lookup section p)) [
  | inl absent ↦
      rw (absent, remove_option)
        (ground (arith, eq_iff section s, absent, lookup-nil {V = String} o))
  | inr (options, there) ↦
      rw (there, remove_option)
        (rw lookup-insert (elim (Bool-cases (section == s)) [
          | inl same ↦ rw (same, ← (eq_iff section s).0 same) (rw (there, lookup-remove) refl)
          | inr differ ↦ rw differ refl
        ]))
]

-- A value that is set is read back, whatever the files and the defaults say; every other entry reads
-- as before.
pub get_item-set_item :
    (defaults : Dict String) (section name v s n : String) (c : Config)
    → get_item defaults s n (set_item section name v c)
      ≡ (if section == s && name == n then ok v else get_item defaults s n c)
unfolding get_item set_item
get_item-set_item defaults section name v s n c = rw value-set (ground arith)

value-read_options :
    (section s o : String) (options : Dict String) (p : Parser)
    → value (read_options section options p) s o
      ≡ (if section == s then first_of (lookup o options) (value p s o) else value p s o)
unfolding lookup
value-read_options section s o [] p = ground arith
value-read_options section s o ((k, v) ∷ options) p =
    rw (value-set, value-read_options section s o options p) (ground arith)

value-nil : (s o : String) → value [] s o ≡ none
unfolding value lookup
value-nil s o = refl

value-cons :
    (section s o : String) (options : Dict String) (file : Parser)
    → value ((section, options) ∷ file) s o
      ≡ (if section == s then lookup o options else value file s o)
unfolding value lookup
value-cons section s o options file = elim (Bool-cases (section == s)) [
  | inl same ↦ rw same refl
  | inr differ ↦ rw differ refl
]

value_absent : (s o : String) (p : Parser) → lookup s p ≡ none → value p s o ≡ none
unfolding value
value_absent s o p h = rw h (lookup-nil o)

-- What a file says wins over what the parser held.
pub value-read_file :
    (file p : Parser) (s o : String)
    → NodupKeys file
    → value (read_file file p) s o ≡ first_of (value file s o) (value p s o)
unfolding read_file
value-read_file [] p s o h = rw value-nil refl
value-read_file ((section, options) ∷ file) p s o (fresh, h) =
    rw
      (
        value-read_options section s o options (read_file file p),
        value-read_file file p s o h,
        value-cons section s o options file,
      )
      (elim (Bool-cases (section == s)) [
        | inl same ↦
            let gone : value file s o ≡ none =
              rw (← (eq_iff section s).0 same) (value_absent section o file fresh) in
            rw (same, gone) refl
        | inr differ ↦ rw differ refl
      ])
