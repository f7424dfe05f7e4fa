-- ===== src/Session/Script.antt =====
-- What a program should do: make the calls of a script in order, and stop with 1 at the first that
-- goes wrong.
use wate_rmq.Common.{
  ◌≡◌, refl, sym, ◌∙◌, ap, subst, Bool, true, false, List, [], ◌∷◌, ◌++◌, append_assoc, append-nil,
  Option, none, some, pos, eqb_ℤ, ltb_ℤ, not, if◌then◌else◌, inl, inr, Bool-cases,
}
use wate_rmq.Memory.{Piece}
use wate_rmq.Session.{
  Call, tcp_socket_new, bytes_malloc_dup, ssl_socket_new, socket_open, socket_open_noblock, login,
  get_rpc_reply, channel_close, connection_close, destroy_connection, uninitialize_ssl_library,
  set_cacert, set_key, Reply, normal, Library, Log, Result, ok, exited, Session, pure, and_then,
  ◌>>=◌, ◌>>◌, perform, called,
}

abbrev pub is_normal : Reply → Bool
is_normal normal = true
is_normal _ = false

abbrev pub is_some {ℓ} : {A : Type ℓ} → Option A → Bool
is_some none = false
is_some (some a) = true

-- Whether a call went well, by the answer to it after the calls `h`, of which it is the last.
abbrev pub good : Library → List Call → Call → Bool
good lib h tcp_socket_new = is_some (lib.handle h)
good lib h bytes_malloc_dup = is_some (lib.bytes h)
good lib h ssl_socket_new = is_some (lib.handle h)
good lib h (socket_open _ _) = eqb_ℤ (lib.status h) (pos 0)
good lib h (socket_open_noblock _ _ _) = not (ltb_ℤ (lib.status h) (pos 0))
good lib h (set_cacert _) = not (ltb_ℤ (lib.status h) (pos 0))
good lib h (set_key _ _) = not (ltb_ℤ (lib.status h) (pos 0))
good lib h destroy_connection = not (ltb_ℤ (lib.status h) (pos 0))
good lib h uninitialize_ssl_library = not (ltb_ℤ (lib.status h) (pos 0))
good lib h (login _ _ _ _ _ _ _) = is_normal (lib.reply h)
good lib h get_rpc_reply = is_normal (lib.reply h)
good lib h (channel_close _) = is_normal (lib.reply h)
good lib h connection_close = is_normal (lib.reply h)
good lib h _ = true

-- The calls up to the first of the script that goes wrong, if one does.
abbrev pub first_bad : Library → List Call → List Call → Option (List Call)
first_bad lib h [] = none
first_bad lib h (c ∷ cs) =
    if good lib (h ++ c ∷ []) c then first_bad lib (h ++ c ∷ []) cs else some (h ++ c ∷ [])

-- How a run of the script `cs` ends, after the calls `h`: with `v`, or with exit(1).
pub data Ends {A : Type 0} (lib : Library) (h cs : List Call) (v : A) (r : Result A) : Type 0 where
  finished :
      {l : Log} → first_bad lib h cs ≡ none → l.calls ≡ h ++ cs → r ≡ ok v l → Ends lib h cs v r
  stopped : {l : Log} → first_bad lib h cs ≡ some l.calls → r ≡ exited (pos 1) l → Ends lib h cs v r

-- `m` runs the script and gives `v`.
pub record Follows {A : Type 0} (lib : Library) (cs : List Call) (v : A) (m : Session A)
    : Type 0 where
  pub ends : (l : Log) → Ends lib l.calls cs v (m l)

pub next_good :
    (lib : Library) (h : List Call) (c : Call) (cs : List Call)
    → good lib (h ++ c ∷ []) c ≡ true
    → first_bad lib h (c ∷ cs) ≡ first_bad lib (h ++ c ∷ []) cs
next_good lib h c cs e = rw e refl

pub next_bad :
    (lib : Library) (h : List Call) (c : Call) (cs : List Call)
    → good lib (h ++ c ∷ []) c ≡ false
    → first_bad lib h (c ∷ cs) ≡ some (h ++ c ∷ [])
next_bad lib h c cs e = rw e refl

first_bad-append :
    (lib : Library) (h cs ds : List Call)
    → first_bad lib h cs ≡ none
    → first_bad lib h (cs ++ ds) ≡ first_bad lib (h ++ cs) ds
first_bad-append lib h [] ds e = ap (λ k. first_bad lib k ds) (sym (append-nil h))
first_bad-append lib h (c ∷ cs) ds e = elim (Bool-cases (good lib (h ++ c ∷ []) c)) [
  | inl fine ↦ rw fine (
      first_bad-append lib (h ++ c ∷ []) cs ds (sym (next_good lib h c cs fine) ∙ e)
      ∙ ap (λ k. first_bad lib k ds) (append_assoc h (c ∷ []) cs))
  | inr bad ↦ cc (next_bad lib h c cs bad)
]

first_bad-stops :
    (lib : Library) (h cs ds : List Call) {k : List Call}
    → first_bad lib h cs ≡ some k
    → first_bad lib h (cs ++ ds) ≡ some k
first_bad-stops lib h [] ds e = cc
first_bad-stops lib h (c ∷ cs) ds {k} e = elim (Bool-cases (good lib (h ++ c ∷ []) c)) [
  | inl fine ↦
      rw fine (first_bad-stops lib (h ++ c ∷ []) cs ds (sym (next_good lib h c cs fine) ∙ e))
  | inr bad ↦ next_bad lib h c (cs ++ ds) bad ∙ sym (next_bad lib h c cs bad) ∙ e
]

-- One script after another.
pub Follows-bind :
    {A B : Type 0} (lib : Library) (cs ds : List Call) {a : A} {b : B} (m : Session A)
    (k : A → Session B)
    → Follows lib cs a m
    → Follows lib ds b (k a)
    → Follows lib (cs ++ ds) b (m >>= k)
Follows-bind lib cs ds {a} {b} m k p q = record { ends = λ l. go l (p.ends l) }
  where
    later :
        (l l' : Log)
        → first_bad lib l.calls cs ≡ none
        → l'.calls ≡ l.calls ++ cs
        → Ends lib l'.calls ds b (k a l')
        → Ends lib l.calls (cs ++ ds) b (k a l')
    later l l' fine e (finished f g r) =
        finished
          (first_bad-append lib l.calls cs ds fine ∙ ap (λ h. first_bad lib h ds) (sym e) ∙ f)
          (g ∙ ap (λ h. h ++ ds) e ∙ append_assoc l.calls cs ds) r
    later l l' fine e (stopped f r) =
        stopped (first_bad-append lib l.calls cs ds fine ∙ ap (λ h. first_bad lib h ds) (sym e) ∙ f)
          r

    go : (l : Log) → Ends lib l.calls cs a (m l) → Ends lib l.calls (cs ++ ds) b ((m >>= k) l)
    go l (finished {l = l'} fine e r) =
        subst (λ x. Ends lib l.calls (cs ++ ds) b (and_then x k)) (sym r)
          (later l l' fine e (q.ends l'))
    go l (stopped {l = l'} bad r) =
        stopped {l = l'} (first_bad-stops lib l.calls cs ds bad) (rw r refl)

-- A call that cannot go wrong.
pub perform-Follows :
    (lib : Library) (c : Call)
    → ((h : List Call) → good lib h c ≡ true)
    → Follows lib (c ∷ []) tt (perform c)
perform-Follows lib c fine = record {
  ends = λ l. finished (next_good lib l.calls c [] (fine _)) refl refl;
}

pub pure-Follows : {A : Type 0} (lib : Library) (a : A) → Follows lib [] a (pure a)
pure-Follows lib a = record { ends = λ l. finished refl (sym (append-nil l.calls)) refl }

pub Follows-then :
    {B : Type 0} (lib : Library) (cs ds : List Call) {b : B} (m : Session (Unit {0}))
    (k : Session B)
    → Follows lib cs tt m
    → Follows lib ds b k
    → Follows lib (cs ++ ds) b (m >> k)
Follows-then lib cs ds m k p q = Follows-bind lib cs ds m (λ _. k) p q

-- The log after a complaint.
abbrev pub complained : List Piece → Log → Log
complained ps l = record l { stderr = l.stderr ++ ps }

-- A call that cannot go wrong, in front of the rest of a run.
pub Ends-call :
    {A : Type 0} (lib : Library) (h : List Call) (c : Call) (cs : List Call) {a : A} {r : Result A}
    → good lib (h ++ c ∷ []) c ≡ true
    → Ends lib (h ++ c ∷ []) cs a r
    → Ends lib h (c ∷ cs) a r
Ends-call lib h c cs fine (finished g e r) =
    finished (next_good lib h c cs fine ∙ g) (e ∙ append_assoc h (c ∷ []) cs) r
Ends-call lib h c cs fine (stopped g r) = stopped (next_good lib h c cs fine ∙ g) r

-- A test of the answer to a call: it decides whether the run goes on as `k`.
pub test-Follows :
    {A : Type 0} (lib : Library) (c : Call) (ds : List Call) {a : A} (k m : Session A)
    → ((l : Log)
        → (good lib (l.calls ++ c ∷ []) c ≡ true → m l ≡ k (called c l))
          × (good lib (l.calls ++ c ∷ []) c ≡ false
              → (l' : Log) × (l'.calls ≡ l.calls ++ c ∷ []) × (m l ≡ exited (pos 1) l')))
    → Follows lib ds a k
    → Follows lib (c ∷ ds) a m
test-Follows lib c ds {a} k m f q = record {
  ends = λ l. elim (Bool-cases (good lib (l.calls ++ c ∷ []) c)) [
    | inl fine ↦ goes_on l fine ((f l).0 fine) (q.ends (called c l))
    | inr bad ↦
        let (l', e, r) = (f l).1 bad in
        stopped {l = l'} (next_bad lib l.calls c ds bad ∙ ap some (sym e)) r
  ];
}
  where
    goes_on :
        (l : Log)
        → good lib (l.calls ++ c ∷ []) c ≡ true
        → m l ≡ k (called c l)
        → Ends lib (l.calls ++ c ∷ []) ds a (k (called c l))
        → Ends lib l.calls (c ∷ ds) a (m l)
    goes_on l fine e (finished {l = l'} g h r) =
        finished {l = l'} (next_good lib l.calls c ds fine ∙ g)
          (h ∙ append_assoc l.calls (c ∷ []) ds) (e ∙ r)
    goes_on l fine e (stopped {l = l'} g r) =
        stopped {l = l'} (next_good lib l.calls c ds fine ∙ g) (e ∙ r)
