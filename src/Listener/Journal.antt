-- ===== src/Listener/Journal.antt =====
-- What the program of FrontendCPP/WateRMQCPP.cpp prints about one message.
use wate_rmq.Common.{
  ℕ, ◌+◌, ◌^◌, ◌≡◌, ◌<◌, ◌⊎◌, inl, inr, refl, sym, ap, ap₂, ◌∙◌, List, [], ◌∷◌, ◌++◌, append-nil,
  append_assoc, lt→ltb,
}
use wate_rmq.Memory.{Piece, text, str}
use wate_rmq.Process.{State, Proc, print}
use wate_rmq.Machine.{ok, ◌>>◌}
use wate_rmq.Listener.{
  Notifier, Parsed, parsed, parse_error, other_error, Answer, given, raised, Json, notification,
  send_notification, notify_all, with_value, announce, on_parsed, count_up, banner, on_data,
}

-- What a message says, if it is understood.
pub record Notice : Type 0 where
  pub sensor_id : List ℕ
  pub message : List ℕ
  pub timestamp : List ℕ
  pub severity : List ℕ

abbrev pub Reading : Type 0
Reading = List Piece ⊎ Notice

abbrev trouble : List ℕ → Reading
trouble what = inl (text "Error: " ∷ str what ∷ text "\n" ∷ [])

abbrev pub noticed : Answer → Answer → Answer → Answer → Reading
noticed (raised what) m t v = trouble what
noticed (given s) (raised what) t v = trouble what
noticed (given s) (given m) (raised what) v = trouble what
noticed (given s) (given m) (given t) (raised what) = trouble what
noticed (given s) (given m) (given t) (given v) =
    inr (record { sensor_id = s; message = m; timestamp = t; severity = v })

abbrev pub understood : Json → Parsed → Reading
understood json (parsed v) =
    noticed (json.value v "sensor_id" "unknown") (json.value v "message" "No message")
      (json.value v "timestamp" "unknown") (json.value v "severity" "info")
understood json (parse_error what) = inl (text "JSON parse error: " ∷ str what ∷ text "\n" ∷ [])
understood json (other_error what) = trouble what

-- Every notifier, in its order.
abbrev pub notifications : List Notifier → Notice → List Piece
notifications [] x = []
notifications (n ∷ ns) x = notification n x.sensor_id x.message x.timestamp ++ notifications ns x

abbrev pub summary : Notice → List Piece
summary x =
    text "Parsed - Sensor: "
    ∷ str x.sensor_id
    ∷ text " | Severity: "
    ∷ str x.severity
    ∷ text "\n"
    ∷ []

abbrev pub told : List Notifier → Reading → List Piece
told ns (inl complaint) = []
told ns (inr x) = summary x ++ notifications ns x

abbrev pub complained : Reading → List Piece
complained (inl complaint) = complaint
complained (inr x) = []

-- What is printed of one message after `n` others; an empty text is none.
abbrev pub lines : Json → List Notifier → ℕ → List ℕ → List Piece
lines json ns n [] = []
lines json ns n (c ∷ cs) =
    banner (n + 1) (c ∷ cs) ++ told ns (understood json (json.parse (c ∷ cs)))

abbrev pub complaint_of : Json → List ℕ → List Piece
complaint_of json [] = []
complaint_of json (c ∷ cs) = complained (understood json (json.parse (c ∷ cs)))

abbrev pub numbered : ℕ → List ℕ → ℕ
numbered n [] = n
numbered n (c ∷ cs) = n + 1

-- Of all messages, in their order and numbered.
abbrev pub journal : Json → List Notifier → ℕ → List (List ℕ) → List Piece
journal json ns n [] = []
journal json ns n (m ∷ ms) = lines json ns n m ++ journal json ns (numbered n m) ms

abbrev pub complaints : Json → List (List ℕ) → List Piece
complaints json [] = []
complaints json (m ∷ ms) = complaint_of json m ++ complaints json ms

-- A state after more has been printed.
abbrev pub said : List Piece → List Piece → State → State
said out err s = record s {
  world = record s.world { stdout = s.world.stdout ++ out; stderr = s.world.stderr ++ err };
}

pub said-said :
    (a b c d : List Piece) (s : State) → said c d (said a b s) ≡ said (a ++ c) (b ++ d) s
said-said a b c d s =
    ap₂ (λ out err. record s { world = record s.world { stdout = out; stderr = err } })
      (append_assoc s.world.stdout a c) (append_assoc s.world.stderr b d)

-- Nothing more on one of the two.
only_out :
    (a : List Piece) (s : State)
    → record s { world = record s.world { stdout = s.world.stdout ++ a } } ≡ said a [] s
only_out a s =
    ap (λ err. record s { world = record s.world { stdout = s.world.stdout ++ a; stderr = err } })
      (sym (append-nil s.world.stderr))

only_err :
    (a : List Piece) (s : State)
    → record s { world = record s.world { stderr = s.world.stderr ++ a } } ≡ said [] a s
only_err a s =
    ap (λ out. record s { world = record s.world { stdout = out; stderr = s.world.stderr ++ a } })
      (sym (append-nil s.world.stdout))

said-nothing : (s : State) → s ≡ said [] [] s
said-nothing s =
    ap₂ (λ out err. record s { world = record s.world { stdout = out; stderr = err } })
      (sym (append-nil s.world.stdout)) (sym (append-nil s.world.stderr))

abbrev put : List Piece → State → State
put a s = record s { world = record s.world { stdout = s.world.stdout ++ a } }

said-put : (a b e : List Piece) (s : State) → said b e (put a s) ≡ said (a ++ b) e s
said-put a b e s =
    ap (λ out. record s { world = record s.world { stdout = out; stderr = s.world.stderr ++ e } })
      (append_assoc s.world.stdout a b)

notify_all-said :
    (ns : List Notifier) (x : Notice) (s : State)
    → notify_all ns x.sensor_id x.message x.timestamp s ≡ ok tt (said (notifications ns x) [] s)
unfolding notify_all send_notification
notify_all-said [] x s = ap (ok tt) (said-nothing s)
notify_all-said (n ∷ ns) x s =
    let a = notification n x.sensor_id x.message x.timestamp in
    notify_all-said ns x (put a s) ∙ ap (ok tt) (said-put a (notifications ns x) [] s)

-- The end of `announce`, with the four answers.
abbrev announced : List Notifier → Answer → Answer → Answer → Answer → Proc (Unit {0})
announced ns a b c d = with_value a λ sensor_id. with_value b λ message. with_value c λ timestamp.
    with_value d λ severity.
      print (
        text "Parsed - Sensor: "
        ∷ str sensor_id
        ∷ text " | Severity: "
        ∷ str severity
        ∷ text "\n"
        ∷ [])
      >> notify_all ns sensor_id message timestamp

announced-said :
    (ns : List Notifier) (a b c d : Answer) (s : State)
    → announced ns a b c d s
      ≡ ok tt (said (told ns (noticed a b c d)) (complained (noticed a b c d)) s)
unfolding with_value
announced-said ns (raised what) b c d s = ap (ok tt) (only_err _ s)
announced-said ns (given x) (raised what) c d s = ap (ok tt) (only_err _ s)
announced-said ns (given x) (given y) (raised what) d s = ap (ok tt) (only_err _ s)
announced-said ns (given x) (given y) (given z) (raised what) s = ap (ok tt) (only_err _ s)
announced-said ns (given x) (given y) (given z) (given v) s =
    let n : Notice = record { sensor_id = x; message = y; timestamp = z; severity = v } in
    notify_all-said ns n (put (summary n) s)
    ∙ ap (ok tt) (said-put (summary n) (notifications ns n) [] s)

on_parsed-said :
    (json : Json) (ns : List Notifier) (p : Parsed) (s : State)
    → on_parsed json ns p s
      ≡ ok tt (said (told ns (understood json p)) (complained (understood json p)) s)
unfolding on_parsed announce
on_parsed-said json ns (parsed v) s =
    announced-said ns (json.value v "sensor_id" "unknown") (json.value v "message" "No message")
      (json.value v "timestamp" "unknown") (json.value v "severity" "info") s
on_parsed-said json ns (parse_error what) s = ap (ok tt) (only_err _ s)
on_parsed-said json ns (other_error what) s = ap (ok tt) (only_err _ s)

count_up-ok : (n : ℕ) (s : State) → n + 1 < 2 ^ 31 → count_up n s ≡ ok (n + 1) s
unfolding count_up
count_up-ok n s h = rw (lt→ltb (n + 1) (2 ^ 31) h) refl

-- The block under `try` never fails: it prints what the journal says of one message.
pub on_data-said :
    (json : Json) (ns : List Notifier) (n : ℕ) (m : List ℕ) (s : State)
    → n + 1 < 2 ^ 31
    → on_data json ns n m s ≡ ok (numbered n m) (said (lines json ns n m) (complaint_of json m) s)
unfolding on_data
on_data-said json ns n [] s h = ap (ok n) (said-nothing s)
on_data-said json ns n (c ∷ cs) s h =
    let p = json.parse (c ∷ cs) in
    rw (count_up-ok n s h, on_parsed-said json ns p (put (banner (n + 1) (c ∷ cs)) s))
      (ap (ok (n + 1)) (
        said-put (banner (n + 1) (c ∷ cs)) (told ns (understood json p))
          (complained (understood json p)) s))
