-- ===== src/Start/Rabbit.antt =====
-- `configurationRabbitMQ_private` as a whole, and `start_consuming_public` behind it.
use wate_rmq.Common.{ℕ, ◌≡◌, refl, List, [], ◌∷◌, ◌++◌, none, some, pos, inl, inr, Bool-cases}
use wate_rmq.Memory.{World, str, null_access}
use wate_rmq.Config.{WateRmq, QueueMmap}
use wate_rmq.Session.{
  channel_open, get_rpc_reply, bytes_malloc_dup, Library, Log, Result, exited, fault, Session,
  called, ask, ◌>>=◌, complaint,
}
use wate_rmq.Session.Script.{
  is_normal, next_bad, first_bad, Ends, Ends-call, Follows, finished, stopped, Follows-then,
  perform-Follows, complained,
}
use wate_rmq.Start.{need, check_reply, declare_call, configure_rabbit_mq, start_consuming}
use wate_rmq.Start.Script.{
  IsConfigured, Declares, HasMemory, consume_script, rabbit_script, need-Follows,
  check_reply-Follows, die_with-bad, declared, declared-Follows,
}

module _ (lib : Library) (w : World) (qu : List ℕ) (i : WateRmq) (exchange key name : List ℕ)
    (conf : IsConfigured w i exchange key) (promise : Declares lib qu name)
    (memory : HasMemory lib) where
  declare-Follows :
      Follows lib
        (declare_call qu ∷ get_rpc_reply ∷ bytes_malloc_dup ∷ consume_script exchange key name)
        tt
        (ask lib.bytes (declare_call qu) >>= λ r. declared lib w i exchange key conf r)
  unfolding check_reply
  declare-Follows = record {
    ends = λ l.
        let h = l.calls ++ declare_call qu ∷ [] in
        let l2 = called get_rpc_reply (called (declare_call qu) l) in
        Ends-call lib l.calls (declare_call qu)
          (get_rpc_reply ∷ bytes_malloc_dup ∷ consume_script exchange key name) refl
          (elim (Bool-cases (is_normal (lib.reply (h ++ get_rpc_reply ∷ [])))) [
            | inl fine ↦ rw (promise l.calls fine) (
                (declared-Follows lib w i exchange key conf memory name).ends
                  (called (declare_call qu) l))
            | inr bad ↦
                stopped
                  {l = complained
                    (str conf.declaring.0 ∷ complaint lib (lib.reply (h ++ get_rpc_reply ∷ []))) l2}
                  (next_bad lib h get_rpc_reply
                    (bytes_malloc_dup ∷ consume_script exchange key name) bad)
                  (rw
                    (die_with-bad lib w (lib.reply (h ++ get_rpc_reply ∷ [])) conf.x.queue_message
                      {s = conf.declaring.0} l2 conf.declaring.1 bad)
                    refl)
          ]);
  }

  -- On an instance that can be read, and a library that has memory for the name, the configuration
  -- opens the channel, declares the queue `qu`, binds it to the exchange of the instance and asks
  -- for its messages, in this order; at the first call that goes wrong the program exits with 1.
  -- It is assumed that a declaration with a normal reply gives `name`.
  pub configure_rabbit_mq-Follows :
      Follows lib (rabbit_script qu exchange key name) tt (configure_rabbit_mq lib w qu i)
  unfolding configure_rabbit_mq
  configure_rabbit_mq-Follows =
      need-Follows lib (rabbit_script qu exchange key name) _ conf.has_login (
        Follows-then lib (channel_open 1 ∷ [])
          (get_rpc_reply
            ∷ declare_call qu
            ∷ get_rpc_reply
            ∷ bytes_malloc_dup
            ∷ consume_script exchange key name)
          _ _ (perform-Follows lib (channel_open 1) λ h. refl)
          (need-Follows lib
            (get_rpc_reply
              ∷ declare_call qu
              ∷ get_rpc_reply
              ∷ bytes_malloc_dup
              ∷ consume_script exchange key name)
            _ conf.has_messages
            (Follows-then lib (get_rpc_reply ∷ [])
              (declare_call qu
                ∷ get_rpc_reply
                ∷ bytes_malloc_dup
                ∷ consume_script exchange key name)
              _ _ (check_reply-Follows lib w conf.x.opening_channel_message conf.opening.1)
              declare-Follows)))

  -- How the start ends for an instance without a bridge: not with consuming.
  pub data Crashes (l : Log) (r : Result (Unit {0})) : Type 0 where
    crashed :
        first_bad lib l.calls (rabbit_script qu exchange key name) ≡ none
        → r ≡ fault null_access
        → Crashes l r
    exits :
        {l' : Log}
        → first_bad lib l.calls (rabbit_script qu exchange key name) ≡ some l'.calls
        → r ≡ exited (pos 1) l'
        → Crashes l r

  -- `start_consuming_public` on such an instance that has no bridge, as `_init_WateRMQ_public` leaves
  -- it: either a call of the configuration goes wrong and the program exits, or all go well and it
  -- reads through the NULL of the bridge.
  pub start_consuming-Crashes :
      i.qmmap ≡ none
      → (bridge : QueueMmap → Session (Unit {0})) (l : Log)
      → Crashes l (start_consuming lib w qu bridge i l)
  unfolding start_consuming need
  start_consuming-Crashes none_there bridge l = go (configure_rabbit_mq-Follows.ends l)
    where
      go :
          Ends lib l.calls
            (rabbit_script qu exchange key name)
            tt
            (configure_rabbit_mq lib w qu i l)
          → Crashes l (start_consuming lib w qu bridge i l)
      go (finished fine e r) = crashed fine (rw (r, none_there) refl)
      go (stopped {l = l'} bad r) = exits {l' = l'} bad (rw r refl)
