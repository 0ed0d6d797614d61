-- ===== src/Trace/Block.antt =====
-- The messages of one event, from the first to the last.
use steamos_log_submitter.Base.{
  ℕ, String, Bool, true, false, ◌||◌, List, [], ◌∷◌, ◌++◌, Option, none, some, ok, Text, codes, ◌≡◌,
  refl, sym, ap, ◌∙◌, ◌⊎◌, inl, inr, All,
}
use mathlib.Core.List.{append_assoc}
use steamos_log_submitter.Base.Dict.{lookup}
use steamos_log_submitter.Journal.Units.{Log, get_or}
use steamos_log_submitter.Trace.{
  EventType, starts, ends, split_lines, take_message, skipped, added, closed, is_early,
  capture_loop,
}

abbrev pub text_of : Log → List Text
text_of log = split_lines (codes (get_or (lookup "MESSAGE" log) ""))

abbrev pub texts_of : List Log → List Text
texts_of [] = []
texts_of (log ∷ logs) = text_of log ++ texts_of logs

take_added :
    (type : EventType) (capturing : Bool) (message : String)
    → (capturing || starts type message) ≡ true
    → ends type message ≡ false
    → take_message type capturing message ≡ added
unfolding take_message
take_added type capturing message h e = rw (h, take_message) (rw e refl)

take_closed :
    (type : EventType) (message : String)
    → ends type message ≡ true
    → take_message type true message ≡ closed
unfolding take_message
take_closed type message e = rw e refl

take_skipped :
    (type : EventType) (message : String)
    → starts type message ≡ false
    → take_message type false message ≡ skipped
unfolding take_message
take_skipped type message e = rw e refl

module _ (int : String → Option ℕ) (type : EventType) (start_usec : ℕ) where
  -- An entry that is too early, or one that says nothing or nothing that starts a report.
  abbrev pub Quiet : Log → Type 0
  Quiet log =
      (is_early int start_usec log ≡ ok true)
      ⊎ ((is_early int start_usec log ≡ ok false)
          × ((lookup "MESSAGE" log ≡ none)
              ⊎ ((m : String) × (lookup "MESSAGE" log ≡ some m) × (starts type m ≡ false))))

  -- An entry late enough, whose message starts or ends a report or not.
  abbrev pub Says : (String → Bool) → Bool → Log → Type 0
  Says test b log =
      (is_early int start_usec log ≡ ok false)
      × ((m : String) × (lookup "MESSAGE" log ≡ some m) × (test m ≡ b))

  abbrev pub Opens : Log → Type 0
  Opens log =
      (is_early int start_usec log ≡ ok false)
      × ((m : String) × (lookup "MESSAGE" log ≡ some m)
          × (starts type m ≡ true)
          × (ends type m ≡ false))

  capture_before :
      (before rest : List Log) (cursor : Option String)
      → All Quiet before
      → capture_loop int type start_usec (before ++ rest) false [] cursor
        ≡ capture_loop int type start_usec rest false [] cursor
  unfolding capture_loop
  capture_before [] rest cursor h = refl
  capture_before (log ∷ before) rest cursor (inl early, h) =
      rw (early, capture_loop) (capture_before before rest cursor h)
  capture_before (log ∷ before) rest cursor (inr (late, inl mute), h) =
      rw (late, capture_loop) (rw mute (capture_before before rest cursor h))
  capture_before (log ∷ before) rest cursor (inr (late, inr (m, says, silent)), h) =
      rw (late, capture_loop)
        (rw (says, take_skipped type m silent) (capture_before before rest cursor h))

  capture_added :
      (log : Log) (rest : List Log) (capturing : Bool) (captured : List Text)
      (cursor : Option String) (m : String)
      → is_early int start_usec log ≡ ok false
      → lookup "MESSAGE" log ≡ some m
      → (capturing || starts type m) ≡ true
      → ends type m ≡ false
      → capture_loop int type start_usec (log ∷ rest) capturing captured cursor
        ≡ capture_loop int type start_usec rest true (captured ++ text_of log) cursor
  unfolding capture_loop
  capture_added log rest capturing captured cursor m late says h e =
      rw (late, capture_loop) (rw (says, take_added type capturing m h e) refl)

  capture_closed :
      (log : Log) (rest : List Log) (captured : List Text) (cursor : Option String) (m c : String)
      → is_early int start_usec log ≡ ok false
      → lookup "MESSAGE" log ≡ some m
      → ends type m ≡ true
      → lookup "__CURSOR" log ≡ some c
      → capture_loop int type start_usec (log ∷ rest) true captured cursor
        ≡ ok (captured ++ text_of log, some c)
  unfolding capture_loop
  capture_closed log rest captured cursor m c late says e has_cursor =
      rw (late, capture_loop) (rw (says, take_closed type m e, has_cursor) refl)

  capture_inside :
      (inside : List Log) (last : Log) (rest : List Log) (captured : List Text)
      (cursor : Option String) (c : String)
      → All (Says (ends type) false) inside
      → Says (ends type) true last
      → lookup "__CURSOR" last ≡ some c
      → capture_loop int type start_usec (inside ++ (last ∷ rest)) true captured cursor
        ≡ ok (captured ++ (texts_of inside ++ text_of last), some c)
  capture_inside [] last rest captured cursor c h (late, (m, says, e)) has_cursor =
      capture_closed last rest captured cursor m c late says e has_cursor
  capture_inside (log ∷ inside) last rest captured cursor c ((late, (m, says, e)), h) l has_cursor =
      capture_added log (inside ++ (last ∷ rest)) true captured cursor m late says refl e
      ∙ capture_inside inside last rest (captured ++ text_of log) cursor c h l has_cursor
      ∙ ap (λ t. ok (t, some c))
          (append_assoc captured (text_of log) (texts_of inside ++ text_of last)
            ∙ ap (λ t. captured ++ t)
                (sym (append_assoc (text_of log) (texts_of inside) (text_of last))))

  -- Entries that are too early, have no MESSAGE or start no report; then one that starts and does not
  -- end one, then entries that do not end it, then one that does and has a cursor, and all from the
  -- first of these to the last are late enough and have a MESSAGE. Then what is captured is the
  -- lines of the messages from the first to the last, the cursor kept is that of the last entry, and
  -- what follows makes no difference.
  pub capture_loop_block :
      (before : List Log) (first : Log) (inside : List Log) (last : Log) (rest : List Log)
      (cursor : Option String) (c : String)
      → All Quiet before
      → Opens first
      → All (Says (ends type) false) inside
      → Says (ends type) true last
      → lookup "__CURSOR" last ≡ some c
      → capture_loop int type start_usec
          (before ++ (first ∷ (inside ++ (last ∷ rest))))
          false
          []
          cursor
        ≡ ok (text_of first ++ (texts_of inside ++ text_of last), some c)
  capture_loop_block before first inside last rest cursor c h (late, (m, says, s, e)) i l
        has_cursor =
      capture_before before (first ∷ (inside ++ (last ∷ rest))) cursor h
      ∙ capture_added first (inside ++ (last ∷ rest)) false [] cursor m late says s e
      ∙ capture_inside inside last rest (text_of first) cursor c i l has_cursor
