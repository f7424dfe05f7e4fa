-- ===== src/Configure/Lays.antt =====
-- The strings of a whole struct overwritten, one after the other.
use wate_rmq.Common.{ℕ, ◌≡◌, ◌≤◌, refl, sym, ◌∙◌, subst, some, List, [], ◌∷◌, arith, length}
use wate_rmq.Memory.{Ptr, World, Run, ok, string_at}
use wate_rmq.Memory.Frame.{IsSound, Extends}
use wate_rmq.Config.{Exchange, ExceptionHandling, WateRmq}
use wate_rmq.Config.Strings.{Owned, Owns}
use wate_rmq.Configure.{member, configure_exchange, configure_exception_message}
use wate_rmq.Configure.Overwrite.{laid}
use wate_rmq.Configure.Jobs.{Job, Ready, AllReady, before, after, Writes, overwrite_back-Writes}

-- The run has put these strings into the blocks that are new since `w0`, and kept the older ones.
pub record Lays (w0 : World) (l : List (Ptr × List ℕ)) (r : Run (Unit {0})) : Type 0 where
  pub world : World
  pub result : r ≡ ok tt world
  pub owns : Owns w0 world l
  pub extends : Extends w0 world

pub Writes-Lays :
    {w0 w : World} (l : List (Ptr × List ℕ)) {r r' : Run (Unit {0})}
    → Extends w0 w
    → r' ≡ r
    → Writes w w0.next w.next l r
    → Lays w0 l r'
Writes-Lays {w0} {w} l x same t = record {
  world = t.world;
  result = same ∙ t.result;
  owns = record { owned = subst (λ n. Owned t.world w0.next n l) (sym t.next) t.owned };
  extends = record {
    later = omega (arith, x.later, t.next);
    same = λ b h. t.outside_low b h ∙ x.same b h;
    granting = t.grants ∙ x.granting;
  };
}

abbrev pub job : Ptr → Ptr → List ℕ → List ℕ → Job
job to from old new = record { to = to; from = from; old = old; new = new }

pub ready :
    {w : World} (from : Ptr) {to : Ptr} {old new : List ℕ}
    → string_at w from ≡ some new
    → length new ≤ length old
    → Ready w (job to from old new)
ready from h k = record { points = h; fits = k }

-- `configurationExchange_WateRMQ_public` on a struct that was made since `w0`, with strings from
-- before that are not longer than those they replace: each member is the new string and then the
-- end of the old one, still in a block of its own, and nothing older is touched.
pub configure_exchange-Lays :
    {w0 w : World} (instance_ : WateRmq) (c : Exchange) (exchange_name key queuename : Ptr)
    (e k q e' k' q' : List ℕ)
    → IsSound w0
    → Extends w0 w
    → instance_.conf_exchange ≡ some c
    → Owns w0 w ((c.queue, q) ∷ (c.binding_key, k) ∷ (c.exchange, e) ∷ [])
    → string_at w0 exchange_name ≡ some e'
    → string_at w0 key ≡ some k'
    → string_at w0 queuename ≡ some q'
    → length e' ≤ length e
    → length k' ≤ length k
    → length q' ≤ length q
    → Lays w0
        ((c.queue, laid q' q) ∷ (c.binding_key, laid k' k) ∷ (c.exchange, laid e' e) ∷ [])
        (configure_exchange instance_ exchange_name key queuename w)
unfolding configure_exchange member
configure_exchange-Lays {w0} {w} instance_ c x y z e k q e' k' q' s ext set o hx hy hz le lk lq =
    Writes-Lays _ ext (rw set refl) (
      overwrite_back-Writes w.next
        (job c.queue z q q' ∷ job c.binding_key y k k' ∷ job c.exchange x e e' ∷ []) s ext
        (ready z hz lq, (ready y hy lk, (ready x hx le, tt))) o.owned)

-- The eight texts of an `ExceptionHandling`.
pub record Messages : Type 0 where
  pub login_message : List ℕ
  pub opening_channel_message : List ℕ
  pub queue_message : List ℕ
  pub binding_message : List ℕ
  pub consuming_message : List ℕ
  pub closing_channel_message : List ℕ
  pub closing_connection_message : List ℕ
  pub ending_connection_message : List ℕ

-- The copies of the texts at `from`, the newest member first.
abbrev pub message_jobs : ExceptionHandling → ExceptionHandling → Messages → Messages → List Job
message_jobs x from old new =
    job x.ending_connection_message from.ending_connection_message old.ending_connection_message
      new.ending_connection_message
    ∷ job x.closing_connection_message from.closing_connection_message
        old.closing_connection_message new.closing_connection_message
    ∷ job x.closing_channel_message from.closing_channel_message old.closing_channel_message
        new.closing_channel_message
    ∷ job x.consuming_message from.consuming_message old.consuming_message new.consuming_message
    ∷ job x.binding_message from.binding_message old.binding_message new.binding_message
    ∷ job x.queue_message from.queue_message old.queue_message new.queue_message
    ∷ job x.opening_channel_message from.opening_channel_message old.opening_channel_message
        new.opening_channel_message
    ∷ job x.login_message from.login_message old.login_message new.login_message
    ∷ []

-- The texts that `configurationExceptionMessage_WateRMQ_public` is given, strings from before `w0`
-- and none longer than the one it replaces, are put over the eight texts of a struct that was made
-- since `w0`; each keeps the end of the old one, and nothing older is touched.
pub configure_exception_message-Lays :
    {w0 w : World} (instance_ : WateRmq) (x from : ExceptionHandling) (old new : Messages)
    → IsSound w0
    → Extends w0 w
    → instance_.except ≡ some x
    → Owns w0 w (before (message_jobs x from old new))
    → AllReady w0 (message_jobs x from old new)
    → Lays w0 (after (message_jobs x from old new)) (
        configure_exception_message instance_ from.login_message from.opening_channel_message
          from.queue_message from.binding_message from.consuming_message
          from.closing_channel_message from.closing_connection_message
          from.ending_connection_message w)
unfolding configure_exception_message member
configure_exception_message-Lays {w0} {w} instance_ x from old new s ext set o r =
    Writes-Lays (after (message_jobs x from old new)) ext (rw set refl)
      (overwrite_back-Writes w.next (message_jobs x from old new) s ext r o.owned)
