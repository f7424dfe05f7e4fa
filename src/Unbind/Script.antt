-- ===== src/Unbind/Script.antt =====
-- The calls that `main` of amqp_unbind.c makes.
use wate_rmq.Common.{ℕ, ◌≡◌, ◌<◌, refl, List, [], ◌∷◌, ◌++◌, ℤ, pos, length, arith}
use wate_rmq.Memory.{text}
use wate_rmq.Session.{Call, channel_open, queue_unbind, get_rpc_reply, Library, Log, ok}
use wate_rmq.Session.Script.{Follows, Follows-then, complained}
use wate_rmq.Session.Checks.{
  connect_script, connect-Follows, request-Follows, disconnect_script, disconnect-Follows,
}
use wate_rmq.Unbind.{unbind_main}

abbrev pub unbind_script : List ℕ → ℤ → List ℕ → List ℕ → List ℕ → List Call
unbind_script hostname port exchange key queue =
    connect_script hostname port
    ++ channel_open 1
      ∷ get_rpc_reply
      ∷ queue_unbind 1 queue exchange key
      ∷ get_rpc_reply
      ∷ disconnect_script

too_few :
    (atoi : List ℕ → ℤ) (lib : Library) (argv : List (List ℕ)) (l : Log)
    → length argv < 6
    → unbind_main atoi lib argv l
      ≡ ok
          (pos 1)
          (complained (text "Usage: amqp_unbind host port exchange bindingkey queue\n" ∷ []) l)
unfolding unbind_main
too_few atoi lib [] l h = refl
too_few atoi lib (a ∷ []) l h = refl
too_few atoi lib (a ∷ b ∷ []) l h = refl
too_few atoi lib (a ∷ b ∷ c ∷ []) l h = refl
too_few atoi lib (a ∷ b ∷ c ∷ d ∷ []) l h = refl
too_few atoi lib (a ∷ b ∷ c ∷ d ∷ e ∷ []) l h = refl
too_few atoi lib (a ∷ b ∷ c ∷ d ∷ e ∷ f ∷ more) l h = absurd (omega arith)

-- With five arguments or more, amqp_unbind connects, logs in, opens the channel, unbinds the queue
-- and disconnects, in this order and with nothing in between; at the first call that goes wrong it
-- stops and exits with 1. With fewer it makes no call, prints its usage and returns 1.
pub unbind_main-Follows :
    (atoi : List ℕ → ℤ) (lib : Library) (program hostname port exchange key queue : List ℕ)
    (more few : List (List ℕ))
    → length few < 6
    → Follows lib
        (unbind_script hostname (atoi port) exchange key queue)
        (pos 0)
        (unbind_main atoi lib (program ∷ hostname ∷ port ∷ exchange ∷ key ∷ queue ∷ more))
      × ((l : Log)
          → unbind_main atoi lib few l
            ≡ ok (pos 1) (
                complained
                  (text "Usage: amqp_unbind host port exchange bindingkey queue\n" ∷ [])
                  l))
unfolding unbind_main
unbind_main-Follows atoi lib program hostname port exchange key queue more few h = (
  connect-Follows lib hostname (atoi port) _ _ (
      Follows-then lib
        (channel_open 1 ∷ get_rpc_reply ∷ queue_unbind 1 queue exchange key ∷ get_rpc_reply ∷ [])
        disconnect_script _ _
        (Follows-then lib (channel_open 1 ∷ get_rpc_reply ∷ [])
          (queue_unbind 1 queue exchange key ∷ get_rpc_reply ∷ []) _ _
          (request-Follows lib (channel_open 1) (text "Opening channel") λ h. refl)
          (request-Follows lib (queue_unbind 1 queue exchange key) (text "Unbinding") λ h. refl))
        (disconnect-Follows lib)),
  λ l. too_few atoi lib few l h,
)
