-- ===== src/Session/Tests.antt =====
-- A library that answers well, one whose reply to a login is an exception, and what they make of
-- amqp_unbind.
use wate_rmq.Common.{List, [], ◌∷◌, Option, none, some, pos, negsuc, ◌≡◌}
use wate_rmq.Memory.{text, hex}
use wate_rmq.Session.{
  Call, login, Reply, normal, library_exception, server_exception, other_method, exited,
  die_on_amqp_error, basic_ack, Library, Log,
}
use wate_rmq.Session.Script.{complained}
use wate_rmq.Session.Checks.{die_on_amqp_error-Ends}

abbrev pub fine : Library
fine = record {
  handle = λ h. some 1;
  status = λ h. pos 0;
  reply = λ h. normal;
  frame = λ h. basic_ack;
  bytes = λ h. some (b'q' ∷ []);
  clock = λ h. 0;
  error_string = λ e. [];
}

abbrev pub last : List Call → Option Call
last [] = none
last (c ∷ []) = some c
last (c ∷ d ∷ cs) = last (d ∷ cs)

abbrev pub login_reply : Option Call → Reply
login_reply (some (login _ _ _ _ _ _ _)) = library_exception (negsuc 0)
login_reply _ = normal

abbrev pub no_login : Library
no_login = record fine { reply = λ h. login_reply (last h) }

abbrev pub empty_log : Log
empty_log = record { calls = []; stdout = []; stderr = [] }

die_on_amqp_error-Ends_run :
    die_on_amqp_error fine (server_exception (other_method 7)) (text "Logging in") empty_log
    ≡ exited (pos 1) (
        complained
          (text "Logging in"
            ∷ text ": unknown server error, method id 0x"
            ∷ hex 8 7
            ∷ text "\n"
            ∷ [])
          empty_log)
die_on_amqp_error-Ends_run =
    die_on_amqp_error-Ends fine (server_exception (other_method 7)) (text "Logging in") empty_log
