-- ===== src/Consumer.antt =====
-- The program BackendC/librabbitmq/watermq/amqp_consumerX.c, which reads messages until the channel or the
-- connection is closed: `run` and `main`. Its 64-bit times wrap around; its `int` counter must not.
pub mod Balance
pub mod Tidy
pub mod Deaf
pub mod Setup
mod Tests
use wate_rmq.Common.{
  ℕ, zero, suc, ◌+◌, ◌-◌, ◌/◌, ◌%◌, ◌^◌, Bool, true, false, List, [], ◌∷◌, ◌++◌, Option, none, some,
  String, ℤ, pos, negsuc, eqb_ℤ, ◌-ℤ◌, ltb, if◌then◌else◌,
}
use wate_rmq.Memory.{Piece, text, str, int, int_range, null_access}
use wate_rmq.Argv.{codes}
use wate_rmq.Session.{
  Call, now_microseconds, maybe_release_buffers, consume_message, destroy_message, destroy_envelope,
  simple_wait_frame, read_message, channel_open, get_rpc_reply, queue_declare, bytes_malloc_dup,
  queue_bind, basic_consume, bytes_free, Reply, normal, no_reply, library_exception,
  server_exception, Frame, basic_ack, channel_close_frame, connection_close_frame, other_frame,
  basic_return, unexpected_method, Library, Session, ok, fault, running, exit, pure, ◌>>=◌, ◌>>◌,
  print, print_error, perform, ask, die_on_amqp_error,
}
use wate_rmq.Session.Connect.{connect, request, disconnect}

abbrev pub summary_every_us : ℕ
summary_every_us = 1000000

abbrev pub amqp_status_unexpected_state : ℤ
amqp_status_unexpected_state = negsuc 15

abbrev pub wrap : ℕ → ℕ
wrap n = n % 2 ^ 64

-- `a - b` of two `uint64_t`.
abbrev pub minus : ℕ → ℕ → ℕ
minus a b = wrap (a + (2 ^ 64 - b))

-- `(int)x / 1000` of a `uint64_t`: the low 32 bits with a sign, rounded towards 0.
abbrev pub int_thousands : ℕ → ℤ
int_thousands x =
    let low = x % 2 ^ 32 in
    if ltb low (2 ^ 31) then pos (low / 1000) else pos 0 -ℤ pos ((2 ^ 32 - low) / 1000)

-- The variables of `run`.
pub record Counters : Type 0 where
  pub received : ℕ
  pub previous_received : ℕ
  pub previous_report_time : ℕ
  pub next_summary_time : ℕ

-- The summary that is printed, and what it resets. `rate count elapsed` is the `int` of the quotient
-- that the program takes in floating point.
unfoldable pub summary : (ℕ → ℕ → ℤ) → ℕ → ℕ → Counters → Session Counters
summary rate start_time now c =
    print (
      int (int_thousands (minus now start_time))
      ∷ text " ms: Received "
      ∷ int (pos c.received)
      ∷ text " - "
      ∷ int (pos (c.received - c.previous_received))
      ∷ text " since last report ("
      ∷ int (rate (c.received - c.previous_received) (minus now c.previous_report_time))
      ∷ text " Hz)\n"
      ∷ [])
    >> pure (record c {
      previous_received = c.received;
      previous_report_time = now;
      next_summary_time = wrap (c.next_summary_time + summary_every_us);
    })

-- A summary is due when `now` is past its time.
unfoldable pub report : (ℕ → ℕ → ℤ) → ℕ → ℕ → Counters → Session Counters
report rate start_time now c =
    if ltb c.next_summary_time now then summary rate start_time now c else pure c

-- The reply of `amqp_read_message`.
unfoldable pub on_returned : Reply → Session Bool
on_returned normal = perform destroy_message >> pure true
on_returned no_reply = pure false
on_returned (library_exception e) = pure false
on_returned (server_exception m) = pure false

-- The frame that has arrived, if `amqp_simple_wait_frame` succeeds: whether `run` goes on.
unfoldable pub on_frame : Library → Frame → Session Bool
on_frame lib basic_ack = pure true
on_frame lib (basic_return channel) =
    ask lib.reply (read_message channel) >>= λ ret. on_returned ret
on_frame lib channel_close_frame = pure false
on_frame lib connection_close_frame = pure false
on_frame lib other_frame = pure true
on_frame lib (unexpected_method id) =
    print_error (text "An unexpected method was received " ∷ int (pos id) ∷ text "\n" ∷ [])
    >> pure false

-- What `amqp_simple_wait_frame` gives, a status and a frame.
unfoldable pub on_status : Library → ℤ → Frame → Session Bool
on_status lib status frame = if eqb_ℤ status (pos 0) then on_frame lib frame else pure false

-- The reply of `amqp_consume_message`: whether `run` goes on.
unfoldable pub on_reply : Library → Reply → Session Bool
on_reply lib normal = perform destroy_envelope >> pure true
on_reply lib (library_exception e) =
    if eqb_ℤ e amqp_status_unexpected_state
    then (ask (λ h. (lib.status h, lib.frame h)) simple_wait_frame >>= λ (status, frame).
        on_status lib status frame)
    else pure true
on_reply lib no_reply = pure true
on_reply lib (server_exception m) = pure true

-- What `printf` makes of the bytes of a message, given as it reads them, up to the first NUL at or
-- behind their place: after a failure there are none.
abbrev pub body : Option (List ℕ) → Piece
body none = text "(null)"
body (some s) = str s

-- One message: it is printed before the reply is looked at.
unfoldable pub consume_one : Library → Session Bool
consume_one lib =
    perform maybe_release_buffers
    >> (ask (λ h. (lib.reply h, lib.bytes h)) consume_message >>= λ (ret, bytes).
        print (text "Receveid h.rmq: " ∷ body bytes ∷ text "\n" ∷ []) >> on_reply lib ret)

-- The loop of `run` up to `received++`.
unfoldable pub round : (ℕ → ℕ → ℤ) → Library → ℕ → Counters → Session (Bool × Counters)
round rate lib start_time c = ask lib.clock now_microseconds >>= λ now.
    report rate start_time (wrap now) c >>= λ c'. consume_one lib >>= λ go. pure (go, c')

-- `received++`, and the next round.
unfoldable pub go_on : Bool → Counters → (Counters → Session (Unit {0})) → Session (Unit {0})
go_on false c again = pure tt
go_on true c again =
    if ltb (c.received + 1) (2 ^ 31) then again (record c { received = c.received + 1 }) else λ l.
    fault int_range

unfoldable pub run_loop : ℕ → (ℕ → ℕ → ℤ) → Library → ℕ → Counters → Session (Unit {0})
run_loop zero rate lib start_time c = λ l. running l
run_loop (suc fuel) rate lib start_time c =
    round rate lib start_time c >>= λ (go, c'). go_on go c' (run_loop fuel rate lib start_time)

unfoldable pub run : ℕ → (ℕ → ℕ → ℤ) → Library → Session (Unit {0})
run fuel rate lib = ask lib.clock now_microseconds >>= λ now.
    run_loop fuel rate lib (wrap now) (record {
      received = 0;
      previous_received = 0;
      previous_report_time = wrap now;
      next_summary_time = wrap (wrap now + summary_every_us);
    })

abbrev pub queue_name : List ℕ
queue_name = codes "test_queue22"

abbrev pub declare : Call
declare = queue_declare 1 queue_name false true false false

-- `amqp_bytes_malloc_dup` has given the name `r`, or has had no memory for it.
unfoldable pub copied : Option (List ℕ) → List ℕ → Session (List ℕ)
copied none r = print_error (text "Out of memory while copying queue name" ∷ []) >> exit (pos 1)
copied (some name) r = pure r

-- The name of the declared queue, copied: `r` is what `amqp_queue_declare` has given. `return 1` of
-- `main` ends the program as `exit(1)` does.
unfoldable pub copy_name : Library → Option (List ℕ) → Session (List ℕ)
copy_name lib none = λ l. fault null_access
copy_name lib (some r) = ask lib.bytes bytes_malloc_dup >>= λ name.
    print (text "Queue: " ∷ str r ∷ text "\n" ∷ []) >> copied name r

-- The binding, and the request for messages.
unfoldable pub subscribe : Library → List ℕ → Session (Unit {0})
subscribe lib queuename =
    request lib (queue_bind 1 queuename (codes "test_exchange_perso") (codes "routing_key_test"))
      (text "Binding queue")
    >> request lib (basic_consume 1 queuename false true false) (text "Consuming")
    >> print (text "-+-+-+-++-+-Ga+++--+laa++-++-ctiiiiik+-+-+R++M++Q-+-+-+-+++---++-+-+\n" ∷ [])

-- The queue declared, and the subscription.
unfoldable pub declare_queue : Library → Session (Unit {0})
declare_queue lib = ask lib.bytes declare >>= λ r.
    (ask lib.reply get_rpc_reply >>= λ reply. die_on_amqp_error lib reply (text "Declaring queue"))
    >> (copy_name lib r >>= λ queuename. subscribe lib queuename)

-- `main` up to its loop.
unfoldable pub set_up : Library → Session (Unit {0})
set_up lib =
    connect lib (codes "localhost") (pos 5672)
      (request lib (channel_open 1) (text "Opening channel") >> declare_queue lib)

unfoldable pub consumer_main : ℕ → (ℕ → ℕ → ℤ) → Library → Session ℤ
consumer_main fuel rate lib =
    set_up lib >> run fuel rate lib >> perform bytes_free >> disconnect lib
