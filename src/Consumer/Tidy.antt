-- ===== src/Consumer/Tidy.antt =====
-- `run` of amqp_consumerX.c gives back what it gets, round by round, and when it stops.
use wate_rmq.Common.{
  ℕ, zero, suc, ◌+◌, ◌^◌, ◌≡◌, ◌<◌, refl, sym, ◌∙◌, ap, subst, Bool, true, false, List, [], ◌∷◌,
  ◌++◌, append_assoc, append-nil, ℤ, ltb, inl, inr, Bool-cases, arith,
}
use wate_rmq.Memory.{text}
use wate_rmq.Session.{
  Call, now_microseconds, maybe_release_buffers, consume_message, Library, Log, Result, ok, running,
  Session, pure, and_then, ◌>>=◌, called,
}
use wate_rmq.Consumer.{
  Counters, report, on_reply, round, summary, body, consume_one, go_on, run_loop, run, wrap,
}
use wate_rmq.Consumer.Balance.{Repays, Repays-append, Does, after_call, on_reply-Does, owed}

pub record Reports (c : Counters) (l : Log) (r : Result Counters) : Type 0 where
  pub counters : Counters
  pub log : Log
  pub result : r ≡ ok counters log
  pub calls : log.calls ≡ l.calls
  pub received : counters.received ≡ c.received

summary-Reports :
    (rate : ℕ → ℕ → ℤ) (start_time now : ℕ) (c : Counters) (l : Log)
    → Reports c l (summary rate start_time now c l)
unfolding summary
summary-Reports rate start_time now c l = record {
  counters = _;
  log = _;
  result = refl;
  calls = refl;
  received = refl;
}

pub report-Reports :
    (rate : ℕ → ℕ → ℤ) (start_time now : ℕ) (c : Counters) (l : Log)
    → Reports c l (report rate start_time now c l)
unfolding report
report-Reports rate start_time now c l = elim (Bool-cases (ltb c.next_summary_time now)) [
  | inl due ↦ rw due (summary-Reports rate start_time now c l)
  | inr early ↦
      rw early (record { counters = c; log = l; result = refl; calls = refl; received = refl })
]

-- One round has given back what it got.
record Rounds (lib : Library) (c : Counters) (l : Log) (r : Result (Bool × Counters)) : Type 0 where
  go : Bool
  counters : Counters
  log : Log
  new : List Call
  result : r ≡ ok (go, counters) log
  calls : log.calls ≡ l.calls ++ new
  repays : Repays lib 0 l.calls new
  received : counters.received ≡ c.received

-- The reply to a consume, and what it obliges to.
consumed :
    (lib : Library) (h ds : List Call)
    → Repays lib (owed (lib.reply (h ++ consume_message ∷ []))) (h ++ consume_message ∷ []) ds
    → Repays lib 0 h (consume_message ∷ ds)
consumed lib h ds p = record {
  envelopes = omega (arith, p.envelopes);
  messages = omega (arith, p.messages);
}

consume_one-Does : (lib : Library) (l : Log) → Does lib 0 l (consume_one lib l)
unfolding consume_one
consume_one-Does lib l =
    after_call lib 0 maybe_release_buffers l (record { envelopes = refl; messages = refl })
      (record {
        value = d.value;
        log = d.log;
        new = consume_message ∷ d.new;
        result = d.result;
        calls =
            d.calls
            ∙ append_assoc (l.calls ++ maybe_release_buffers ∷ []) (consume_message ∷ []) d.new;
        repays = consumed lib (l.calls ++ maybe_release_buffers ∷ []) d.new d.repays;
      })
  where
    h : List Call
    h = (l.calls ++ maybe_release_buffers ∷ []) ++ consume_message ∷ []

    seen : Log
    seen = record l {
      calls = h;
      stdout = l.stdout ++ text "Receveid h.rmq: " ∷ body (lib.bytes h) ∷ text "\n" ∷ [];
    }

    d : Does lib (owed (lib.reply h)) seen (on_reply lib (lib.reply h) seen)
    d = on_reply-Does lib (lib.reply h) seen

rebased :
    {A : Type 0} (lib : Library) (l l' : Log) {r : Result A}
    → l'.calls ≡ l.calls
    → Does lib 0 l' r
    → Does lib 0 l r
rebased lib l l' e d = record {
  value = d.value;
  log = d.log;
  new = d.new;
  result = d.result;
  calls = d.calls ∙ ap (λ h. h ++ d.new) e;
  repays = subst (λ h. Repays lib 0 h d.new) e d.repays;
}

Rounds-of :
    (lib : Library) (c : Counters) (l : Log) {r : Result Counters}
    (told : Reports c (called now_microseconds l) r)
    → Does lib 0 l (consume_one lib told.log)
    → Rounds lib c l (and_then r (λ c'. consume_one lib >>= λ go. pure (go, c')))
Rounds-of lib c l {r} told d = record {
  go = d.value;
  counters = told.counters;
  log = d.log;
  new = d.new;
  result = rw (told.result, d.result) refl;
  calls = d.calls;
  repays = d.repays;
  received = told.received;
}

Rounds-after :
    (lib : Library) (c : Counters) (l : Log) {r : Result Counters}
    → Reports c (called now_microseconds l) r
    → Rounds lib c l (and_then r (λ c'. consume_one lib >>= λ go. pure (go, c')))
Rounds-after lib c l told = Rounds-of lib c l told (
    after_call lib 0 now_microseconds l (record { envelopes = refl; messages = refl })
      (rebased lib (called now_microseconds l) told.log told.calls (consume_one-Does lib told.log)))

round-Rounds :
    (rate : ℕ → ℕ → ℤ) (lib : Library) (start_time : ℕ) (c : Counters) (l : Log)
    → Rounds lib c l (round rate lib start_time c l)
unfolding round
round-Rounds rate lib start_time c l = Rounds-after lib c l (
    report-Reports rate start_time (wrap (lib.clock (l.calls ++ now_microseconds ∷ []))) c
      (called now_microseconds l))

-- How `run` ends, or is left when the fuel is used up: what it got it has given back.
pub data Tidy (lib : Library) (l : Log) (r : Result (Unit {0})) : Type 0 where
  returned :
      {l' : Log} (cs : List Call)
      → l'.calls ≡ l.calls ++ cs
      → Repays lib 0 l.calls cs
      → r ≡ ok tt l'
      → Tidy lib l r
  still :
      {l' : Log} (cs : List Call)
      → l'.calls ≡ l.calls ++ cs
      → Repays lib 0 l.calls cs
      → r ≡ running l'
      → Tidy lib l r

more_rounds :
    (lib : Library) (l l' : Log) (cs : List Call) {r r' : Result (Unit {0})}
    → l'.calls ≡ l.calls ++ cs
    → Repays lib 0 l.calls cs
    → r' ≡ r
    → Tidy lib l' r
    → Tidy lib l r'
more_rounds lib l l' cs e p same (returned ds f q g) =
    returned (cs ++ ds) (f ∙ ap (λ h. h ++ ds) e ∙ append_assoc l.calls cs ds)
      (Repays-append lib 0 0 l.calls cs ds p (subst (λ h. Repays lib 0 h ds) e q)) (same ∙ g)
more_rounds lib l l' cs e p same (still ds f q g) =
    still (cs ++ ds) (f ∙ ap (λ h. h ++ ds) e ∙ append_assoc l.calls cs ds)
      (Repays-append lib 0 0 l.calls cs ds p (subst (λ h. Repays lib 0 h ds) e q)) (same ∙ g)

go_on-Tidy :
    (lib : Library) (go : Bool) (c : Counters) (l : Log) (again : Counters → Session (Unit {0}))
    → c.received + 1 < 2 ^ 31
    → ((c' : Counters) → c'.received ≡ c.received + 1 → Tidy lib l (again c' l))
    → Tidy lib l (go_on go c again l)
unfolding go_on
go_on-Tidy lib false c l again h f =
    returned [] (sym (append-nil l.calls)) (record { envelopes = refl; messages = refl }) refl
go_on-Tidy lib true c l again h f =
    rw (below (c.received + 1) h) (f (record c { received = c.received + 1 }) refl)
  where
    below : (n : ℕ) → n < 2 ^ 31 → ltb n (2 ^ 31) ≡ true
    below n k = ground arith

run_loop-Tidy :
    (fuel : ℕ) (rate : ℕ → ℕ → ℤ) (lib : Library) (start_time : ℕ) (c : Counters) (l : Log)
    → c.received + fuel < 2 ^ 31
    → Tidy lib l (run_loop fuel rate lib start_time c l)
unfolding run_loop
run_loop-Tidy zero rate lib start_time c l h =
    still [] (sym (append-nil l.calls)) (record { envelopes = refl; messages = refl }) refl
run_loop-Tidy (suc fuel) rate lib start_time c l h =
    let t = round-Rounds rate lib start_time c l in
    more_rounds lib l t.log t.new t.calls t.repays (rw t.result refl) (
      go_on-Tidy lib t.go t.counters t.log (run_loop fuel rate lib start_time)
        (omega (arith, t.received))
        λ c' e. run_loop-Tidy fuel rate lib start_time c' t.log (omega (arith, e, t.received)))

-- However the library answers: when `run` stops, and also after any number of rounds less than the
-- counter can take, every envelope and every message that the library has handed out has been given
-- back, each once; and `run` does not fault or exit.
pub run-Tidy :
    (fuel : ℕ) (rate : ℕ → ℕ → ℤ) (lib : Library) (l : Log)
    → fuel < 2 ^ 31
    → Tidy lib l (run fuel rate lib l)
unfolding run
run-Tidy fuel rate lib l h =
    more_rounds lib l (called now_microseconds l) (now_microseconds ∷ []) refl
      (record { envelopes = refl; messages = refl }) refl
      (run_loop-Tidy fuel rate lib _ _ (called now_microseconds l) (omega (arith, h)))
