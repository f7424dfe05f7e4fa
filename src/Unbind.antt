-- ===== src/Unbind.antt =====
-- The program BackendC/librabbitmq/watermq/amqp_unbind.c, which takes a binding off a queue.
pub mod Script
mod Tests
use wate_rmq.Common.{
  ℕ, List, [], ◌∷◌, Option, none, some, ℤ, pos, negsuc, eqb_ℤ, ltb, if◌then◌else◌, length,
}
use wate_rmq.Memory.{text}
use wate_rmq.Argv.{codes}
use wate_rmq.Session.{
  Call, channel_open, queue_unbind, Library, Session, pure, ◌>>=◌, ◌>>◌, print_error,
}
use wate_rmq.Session.Connect.{connect, request, disconnect}

-- `atoi` is that of the C library; `argv` has no NULL at its end here.
unfoldable pub unbind_main : (List ℕ → ℤ) → Library → List (List ℕ) → Session ℤ
unbind_main atoi lib (_ ∷ hostname ∷ port ∷ exchange ∷ bindingkey ∷ queue ∷ _) =
    connect lib hostname (atoi port) (
      request lib (channel_open 1) (text "Opening channel")
      >> request lib (queue_unbind 1 queue exchange bindingkey) (text "Unbinding")
      >> disconnect lib)
unbind_main atoi lib _ =
    print_error (text "Usage: amqp_unbind host port exchange bindingkey queue\n" ∷ [])
    >> pure (pos 1)
