-- ===== src/Sentry/Seal.antt =====
-- What a sealed event says, tag by tag.
use steamos_log_submitter.Base.{
  String, Option, none, some, ◌≡◌, refl, arith, eq_iff, ◌==◌, if◌then◌else◌, Bool-cases, inl, inr,
}
use steamos_log_submitter.Base.Dict.{Dict, lookup, lookup-insert}
use steamos_log_submitter.Base.Json.{Json, string, put_text}
use steamos_log_submitter.Sentry.{SentryEvent, System, put_some, product, seal_tags}

abbrev pub over : Option Json → Option Json → Option Json
over none b = b
over (some a) b = some a

-- A string that `if` takes for true.
abbrev pub some_text : Option String → Option Json
some_text none = none
some_text (some s) = if s == "" then none else some (string s)

lookup-put_some :
    (k j : String) (v : Option Json) (d : Dict Json)
    → lookup j (put_some k v d) ≡ (if k == j then over v (lookup j d) else lookup j d)
lookup-put_some k j none d = ground arith
lookup-put_some k j (some v) d = lookup-insert k j v d

lookup-put_text :
    (k j : String) (v : Option String) (d : Dict Json)
    → lookup j (put_text k v d) ≡ (if k == j then over (some_text v) (lookup j d) else lookup j d)
lookup-put_text k j none d = ground arith
lookup-put_text k j (some s) d = ground (arith, lookup-insert k j (string s) d)

same_if :
    {x y u v : Option Json} (a k : String)
    → (a ≡ k → x ≡ u)
    → y ≡ v
    → (if a == k then x else y) ≡ (if a == k then u else v)
same_if a k f p = elim (Bool-cases (a == k)) [
  | inl same ↦ rw same (f ((eq_iff a k).0 same))
  | inr differ ↦ rw differ p
]

-- Where the tag of a sealed event comes from: the device, the system or the event's own attributes
-- before the tags that the helper gave it.
abbrev pub tag : System → SentryEvent → String → Option Json
tag s e k =
    if "product" == k
    then over (product s.dmi_info) (lookup k e.tags)
    else if "unit_id" == k
    then over (some_text s.unit_id) (lookup k e.tags)
    else if "os_build" == k
    then over (some_text e.os_build) (lookup k e.tags)
    else if "architecture" == k
    then some (string e.architecture)
    else if "appid" == k
    then over e.appid (lookup k e.tags)
    else lookup k e.tags

-- Every tag of a sealed event, by its name: `product`, `unit_id` and `os_build` are those of the
-- device, where there are any, `architecture` is always the machine's, `appid` is the event's, and
-- every other tag, or one of these that has no such source, is the helper's own.
pub lookup-seal_tags :
    (s : System) (e : SentryEvent) (k : String) → lookup k (seal_tags s e) ≡ tag s e k
unfolding seal_tags
lookup-seal_tags s e k =
    rw (lookup-put_some, lookup-put_text, lookup-put_text, lookup-insert, lookup-put_some)
      (same_if "product" k (λ same. rw (← same) refl)
        (same_if "unit_id" k (λ same. rw (← same) refl)
          (same_if "os_build" k (λ same. rw (← same) refl)
            (same_if "architecture" k (λ same. refl) refl))))
