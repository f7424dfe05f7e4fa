-- ===== src/Backend/Replies.antt =====
-- `retRequestHandling_private` of BackLibWaterRMQ.c beside the end of a round of amqp_consumerX.c.
use wate_rmq.Common.{
  ◌≡◌, refl, Bool, true, false, [], ◌∷◌, ◌++◌, ℤ, pos, eqb_ℤ, ◌⊎◌, inl, inr, Bool-cases,
}
use wate_rmq.Memory.{text}
use wate_rmq.Session.{
  read_message, Reply, normal, no_reply, library_exception, server_exception, Frame, basic_ack,
  basic_return, channel_close_frame, connection_close_frame, other_frame, unexpected_method,
  Library, Log, Result, ok, simple_wait_frame, called,
}
use wate_rmq.Consumer.{amqp_status_unexpected_state, on_returned, on_frame, on_status, on_reply}
use wate_rmq.Backend.Calls.{on_returned_message, on_method, on_waited, ret_request_handling}

-- Both have returned, with the same calls and the same complaints; the back end may have printed more.
pub record Alike (p : Result Bool) (q : Result (Unit {0})) : Type 0 where
  pub goes_on : Bool
  pub here : Log
  pub there : Log
  pub returns_here : p ≡ ok goes_on here
  pub returns_there : q ≡ ok tt there
  pub calls : there.calls ≡ here.calls
  pub stderr : there.stderr ≡ here.stderr
  pub stdout : (there.stdout ≡ here.stdout) ⊎ (there.stdout ≡ here.stdout ++ text "matching ?" ∷ [])

quiet :
    {p : Result Bool} {q : Result (Unit {0})} (b : Bool) (l : Log)
    → p ≡ ok b l
    → q ≡ ok tt l
    → Alike p q
quiet b l e f = record {
  goes_on = b;
  here = l;
  there = l;
  returns_here = e;
  returns_there = f;
  calls = refl;
  stderr = refl;
  stdout = inl refl;
}

abbrev matching : Log → Log
matching l = record l { stdout = l.stdout ++ text "matching ?" ∷ [] }

loud :
    {p : Result Bool} {q : Result (Unit {0})} (b : Bool) (l : Log)
    → p ≡ ok b l
    → q ≡ ok tt (matching l)
    → Alike p q
loud b l e f = record {
  goes_on = b;
  here = l;
  there = matching l;
  returns_here = e;
  returns_there = f;
  calls = refl;
  stderr = refl;
  stdout = inr refl;
}

on_returned-Alike :
    (r : Reply) (l : Log) → Alike (on_returned r l) (on_returned_message r (matching l))
unfolding on_returned on_returned_message
on_returned-Alike normal l = loud true _ refl refl
on_returned-Alike no_reply l = loud false _ refl refl
on_returned-Alike (library_exception e) l = loud false _ refl refl
on_returned-Alike (server_exception m) l = loud false _ refl refl

on_frame-Alike :
    (lib : Library) (f : Frame) (l : Log) → Alike (on_frame lib f l) (on_method lib f l)
unfolding on_frame on_method
on_frame-Alike lib basic_ack l = quiet true l refl refl
on_frame-Alike lib (basic_return channel) l =
    on_returned-Alike (lib.reply (l.calls ++ read_message channel ∷ []))
      (called (read_message channel) l)
on_frame-Alike lib channel_close_frame l = quiet false l refl refl
on_frame-Alike lib connection_close_frame l = quiet false l refl refl
on_frame-Alike lib other_frame l = quiet true l refl refl
on_frame-Alike lib (unexpected_method id) l = quiet false _ refl refl

on_status-Alike :
    (lib : Library) (status : ℤ) (f : Frame) (l : Log)
    → Alike (on_status lib status f l) (on_waited lib status f l)
unfolding on_status on_waited
on_status-Alike lib status f l = elim (Bool-cases (eqb_ℤ status (pos 0))) [
  | inl fine ↦ rw fine (on_frame-Alike lib f l)
  | inr bad ↦ rw bad (quiet false l refl refl)
]

-- Whatever the reply and whatever the library answers, `retRequestHandling_private` returns, after
-- the same calls and the same complaints as the end of a round of amqp_consumerX; but where that
-- tells its loop to stop, it only returns, and of a message that has come back it prints more.
pub ret_request_handling-Alike :
    (lib : Library) (ret : Reply) (l : Log)
    → Alike (on_reply lib ret l) (ret_request_handling lib ret l)
unfolding on_reply ret_request_handling
ret_request_handling-Alike lib normal l = quiet true _ refl refl
ret_request_handling-Alike lib no_reply l = quiet true l refl refl
ret_request_handling-Alike lib (server_exception m) l = quiet true l refl refl
ret_request_handling-Alike lib (library_exception e) l =
    elim (Bool-cases (eqb_ℤ e amqp_status_unexpected_state)) [
      | inl waits ↦
          let h = l.calls ++ simple_wait_frame ∷ [] in
          rw waits (on_status-Alike lib (lib.status h) (lib.frame h) (called simple_wait_frame l))
      | inr other ↦ rw other (quiet true l refl refl)
    ]
