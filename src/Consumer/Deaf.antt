-- ===== src/Consumer/Deaf.antt =====
-- Replies that `run` of amqp_consumerX.c takes no notice of.
use wate_rmq.Common.{
  ℕ, zero, suc, ◌+◌, ◌^◌, ◌≡◌, ◌<◌, refl, Bool, true, false, List, [], ◌∷◌, ◌++◌, ℤ, ltb, arith,
  eqb_ℤ, not,
}
use wate_rmq.Session.{
  Call, now_microseconds, maybe_release_buffers, consume_message, Reply, normal, no_reply,
  library_exception, server_exception, Library, Log, ok, running, called,
}
use wate_rmq.Consumer.{
  Counters, on_reply, consume_one, round, go_on, run_loop, run, wrap, amqp_status_unexpected_state,
}
use wate_rmq.Consumer.Tidy.{Reports, report-Reports}

-- A reply that tells of an error, other than the one that `run` looks at.
abbrev pub ignored : Reply → Bool
ignored normal = false
ignored (library_exception e) = not (eqb_ℤ e amqp_status_unexpected_state)
ignored no_reply = true
ignored (server_exception m) = true

on_reply-ignored :
    (lib : Library) (r : Reply) (l : Log) → ignored r ≡ true → on_reply lib r l ≡ ok true l
unfolding on_reply
on_reply-ignored lib normal l e = cc
on_reply-ignored lib (library_exception x) l e = ground arith
on_reply-ignored lib no_reply l e = refl
on_reply-ignored lib (server_exception m) l e = refl

-- Every consume fails, and not with the one error that is looked at.
abbrev pub IsDeaf : Library → Type 0
IsDeaf lib = (h : List Call) → ignored (lib.reply (h ++ consume_message ∷ [])) ≡ true

consume_one-deaf :
    (lib : Library) (l : Log) → IsDeaf lib → (l' : Log) × (consume_one lib l ≡ ok true l')
unfolding consume_one
consume_one-deaf lib l deaf =
    (_, on_reply-ignored lib _ _ (deaf (l.calls ++ maybe_release_buffers ∷ [])))

round-deaf :
    (rate : ℕ → ℕ → ℤ) (lib : Library) (start_time : ℕ) (c : Counters) (l : Log)
    → IsDeaf lib
    → (c' : Counters) × (l' : Log) × (round rate lib start_time c l ≡ ok (true, c') l')
      × (c'.received ≡ c.received)
unfolding round
round-deaf rate lib start_time c l deaf =
    let told : Reports c (called now_microseconds l) _ =
      report-Reports rate start_time (wrap (lib.clock (l.calls ++ now_microseconds ∷ []))) c
        (called now_microseconds l) in
    let (l', e) = consume_one-deaf lib told.log deaf in
    (told.counters, l', rw (told.result, e) refl, told.received)

run_loop-deaf :
    (fuel : ℕ) (rate : ℕ → ℕ → ℤ) (lib : Library) (start_time : ℕ) (c : Counters) (l : Log)
    → IsDeaf lib
    → c.received + fuel < 2 ^ 31
    → (l' : Log) × (run_loop fuel rate lib start_time c l ≡ running l')
unfolding run_loop go_on
run_loop-deaf zero rate lib start_time c l deaf h = (l, refl)
run_loop-deaf (suc fuel) rate lib start_time c l deaf h =
    let (c', l1, e, same) = round-deaf rate lib start_time c l deaf in
    let (l', f) =
      run_loop-deaf fuel rate lib start_time (record c' { received = c'.received + 1 }) l1 deaf
        (omega (arith, same)) in
    (l', rw (e, below (c'.received + 1) (omega (arith, same))) f)
  where
    below : (n : ℕ) → n < 2 ^ 31 → ltb n (2 ^ 31) ≡ true
    below n k = ground arith

-- If every consume fails, with a server exception, an end of the connection, or a library exception
-- that is not the one for an unexpected state, `run` goes on and on: it has not returned after any
-- number of rounds that the counter can take.
pub run_deaf :
    (fuel : ℕ) (rate : ℕ → ℕ → ℤ) (lib : Library) (l : Log)
    → IsDeaf lib
    → fuel < 2 ^ 31
    → (l' : Log) × (run fuel rate lib l ≡ running l')
unfolding run
run_deaf fuel rate lib l deaf h =
    run_loop-deaf fuel rate lib _ _ (called now_microseconds l) deaf (omega (arith, h))
