-- ===== src/Consumer/Tests.antt =====
-- amqp_consumerX with libraries that answer well and badly.
use wate_rmq.Common.{ℕ, ◌≡◌, refl, [], ◌∷◌, ◌++◌, Option, none, some, ℤ, pos, negsuc, arith}
use wate_rmq.Memory.{text, str}
use wate_rmq.Session.{
  Call, now_microseconds, maybe_release_buffers, simple_wait_frame, bytes_free, consume_message,
  Reply, normal, library_exception, server_exception, other_method, channel_close_frame, Library,
  Log, ok, running, die_on_amqp_error,
}
use wate_rmq.Session.Script.{Follows, Ends, first_bad}
use wate_rmq.Session.Tests.{fine, last, empty_log}
use wate_rmq.Consumer.{
  run, run_loop, round, report, consume_one, on_reply, on_status, on_frame, go_on, set_up,
  declare_queue, copy_name, copied, subscribe, consumer_main,
}
use wate_rmq.Session.Connect.{connect, need_handle, open_socket, log_in, request}
use wate_rmq.Session.Checks.{disconnect_script}
use wate_rmq.Consumer.Tidy.{Tidy, run-Tidy}
use wate_rmq.Consumer.Deaf.{run_deaf}
use wate_rmq.Consumer.Setup.{set_up_script, set_up-Follows, consumer_main-Ends}

abbrev rate : ℕ → ℕ → ℤ
rate n t = pos n

set_up-Follows_example : Follows fine (set_up_script (b'q' ∷ [])) tt (set_up fine)
set_up-Follows_example = set_up-Follows fine (b'q' ∷ []) λ h e. refl

all_good : first_bad fine [] (set_up_script (b'q' ∷ [])) ≡ none
all_good = refl

run-Tidy_example : Tidy fine empty_log (run 3 rate fine empty_log)
run-Tidy_example = run-Tidy 3 rate fine empty_log (omega arith)

abbrev lost : Library
lost = record fine { reply = λ h. server_exception (other_method 7) }

run_deaf_example : (l' : Log) × (run 1000 rate lost empty_log ≡ running l')
run_deaf_example = run_deaf 1000 rate lost empty_log (λ h. refl) (omega arith)

-- The channel is closed at once.
abbrev closing_reply : Option Call → Reply
closing_reply (some consume_message) = library_exception (negsuc 15)
closing_reply _ = normal

abbrev closing : Library
closing = record fine { reply = λ h. closing_reply (last h); frame = λ h. channel_close_frame }

abbrev ready : Log
ready = record {
  calls = set_up_script (b'q' ∷ []);
  stdout =
      text "Queue: "
      ∷ str (b'q' ∷ [])
      ∷ text "\n"
      ∷ text "-+-+-+-++-+-Ga+++--+laa++-++-ctiiiiik+-+-+R++M++Q-+-+-+-+++---++-+-+\n"
      ∷ [];
  stderr = [];
}

abbrev closed : Log
closed = record {
  calls =
      ready.calls
      ++ now_microseconds ∷ now_microseconds ∷ maybe_release_buffers ∷ consume_message
        ∷ simple_wait_frame ∷ [];
  stdout = ready.stdout ++ text "Receveid h.rmq: " ∷ str (b'q' ∷ []) ∷ text "\n" ∷ [];
  stderr = [];
}

becomes_ready : set_up closing empty_log ≡ ok tt ready
unfolding set_up connect need_handle open_socket log_in request die_on_amqp_error declare_queue
    copy_name copied subscribe
becomes_ready = refl

is_closed : run 1 rate closing ready ≡ ok tt closed
unfolding run run_loop round report consume_one on_reply on_status on_frame go_on
is_closed = refl

consumer_main-Ends_run :
    Ends closing closed.calls
      (bytes_free ∷ disconnect_script)
      (pos 0)
      (consumer_main 1 rate closing empty_log)
consumer_main-Ends_run =
    consumer_main-Ends 1 rate closing empty_log ready closed becomes_ready is_closed
