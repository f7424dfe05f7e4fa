-- ===== src/Backend/Message.antt =====
-- What `sendMessage` of BackLibWaterRMQ.c comes to.
use wate_rmq.Common.{
  ℕ, zero, suc, ◌≡◌, refl, sym, subst, ap, ◌∙◌, true, false, Option, none, some, Bool-cases, inl,
  inr, arith,
}
use wate_rmq.Memory.{Ptr, at, World, Run, Cmd, Fault, dangling, update}
use wate_rmq.Memory
use wate_rmq.Machine.{Ending, ok, fault, blocked, and_then, pure, ◌>>=◌, ◌>>◌}
use wate_rmq.Config.{WateRmq, SemaphoreMmap, QueueMmap}
use wate_rmq.Configure.{member}
use wate_rmq.Backend.{
  State, Back, lift, lifted, sem_wait, sem_close, lower, add_to_queue, send_through, send_message,
  Placing,
}
use wate_rmq.Queue.{Queue, enqueue}
use wate_rmq.Backend.Stays.{enqueue-Stays}
use wate_rmq.Backend.Hinders.{
  Guarded, Hinders, no_semaphore, no_handle, not_open, no_bridge, no_queue, not_added_here, Safe,
  returns, fails, from, add_to_queue-Safe,
}

-- What one message at block `b` comes to, from the state `s`: a fault with its reason, a wait for a
-- semaphore that is 0, or an instance whose semaphore has been closed.
pub data Sent (place : Placing) (i : WateRmq) (b : ℕ) (s : State)
    : Ending State WateRmq → Type 0 where
  breaks :
      {e : Fault} {t : State} → Hinders place i s.is_open b s.world e → Sent place i b s (fault e t)
  waits :
      {h : ℕ} {t : State}
      → Guarded i h
      → s.value h ≡ 0
      → t.calls ≡ s.calls
      → Sent place i b s (blocked t)
  sends :
      {h : ℕ} {i' : WateRmq} {t : State}
      → Guarded i' h
      → t.is_open h ≡ false
      → i'.conf_login ≡ i.conf_login
      → Sent place i b s (ok i' t)

module _ (place : Placing) (i : WateRmq) (b : ℕ) (s : State) where
  -- A call on memory, and what follows it.
  after :
      {A : Type 0} {r : Run A} (k : A → Back WateRmq) (t : State)
      → Safe (Hinders place i s.is_open b s.world) r
      → ((a : A) (w : World) → r ≡ Memory.ok a w → Sent place i b s (k a (record t { world = w })))
      → Sent place i b s (and_then (lifted r t) k)
  after k t (returns {a} {w}) f = f a w refl
  after k t (fails e) f = breaks e

  closing :
      (h : ℕ) (g : Guarded i h) (q : QueueMmap) (t : State)
      → t.is_open h ≡ true
      → Sent place i b s ((sem_close g.own.semaphore_self >> pure (record i { qmmap = some q })) t)
  unfolding sem_close
  closing h g q t e = rw g.handle_at (
      rw e (
        sends {h = h} (record { own = g.own; has_own = g.has_own; handle_at = g.handle_at })
          (ground arith) refl))

  through :
      (h : ℕ) (g : Guarded i h) (q : QueueMmap) (o : Option Queue) (t : State)
      → i.qmmap ≡ some q
      → q.ptr_queue ≡ o
      → t.is_open h ≡ true
      → t.world ≡ s.world
      → Sent place i b s (
          (lift (add_to_queue place o (at b)) >>= λ _. lift (member o) >>= λ queue.
          lift (enqueue queue (at b)) >>= λ queue'.
          sem_close g.own.semaphore_self
          >> pure (record i { qmmap = some (record q { ptr_queue = some queue' }) }))
            t)
  unfolding add_to_queue member
  through h g q none t at_q e c w = breaks (no_queue at_q e)
  through h g q (some queue) t at_q e c w =
      after _ t
        (subst
          (λ x.
            Safe (Hinders place i s.is_open b s.world) (add_to_queue place (some queue) (at b) x))
          (sym w) (add_to_queue-Safe place i s.is_open q queue b s.world at_q e))
        λ n v r.
          after _ (record t { world = v })
            (from (enqueue-Stays queue (at b) v) λ f a.
              not_added_here at_q e (ap (add_to_queue place (some queue) (at b)) (sym w) ∙ r) a)
            λ queue' x a.
              closing h g (record q { ptr_queue = some queue' }) (record t { world = x }) c

  abbrev rest : SemaphoreMmap → Back WateRmq
  rest m = lift (member i.qmmap) >>= λ q. send_through place i m.semaphore_self (at b) q

  bridged :
      (h : ℕ) (g : Guarded i h) (o : Option QueueMmap) (t : State)
      → i.qmmap ≡ o
      → t.is_open h ≡ true
      → t.world ≡ s.world
      → Sent place i b s
          ((lift (member o) >>= λ q. send_through place i g.own.semaphore_self (at b) q) t)
  unfolding member send_through
  bridged h g none t e c w = breaks (no_bridge e)
  bridged h g (some q) t e c w = through h g q q.ptr_queue t e refl c w

  passing :
      (h : ℕ) (g : Guarded i h) (v : ℕ)
      → s.is_open h ≡ true
      → s.value h ≡ v
      → Sent place i b s (and_then (lower v h s) λ _. rest g.own)
  passing h g zero o z = waits g z refl
  passing h g (suc v) o z =
      bridged h g i.qmmap (record s { value = update s.value h v }) refl o refl

  waiting :
      (m : SemaphoreMmap) (o : Option ℕ)
      → i.semap ≡ some m
      → m.semaphore_self ≡ o
      → Sent place i b s ((sem_wait o >> rest m) s)
  unfolding sem_wait
  waiting m none e n = breaks (no_handle e n)
  waiting m (some h) e n =
      let g : Guarded i h = record { own = m; has_own = e; handle_at = n } in
      elim (Bool-cases (s.is_open h)) [
        | inl o ↦ rw o (passing h g (s.value h) o refl)
        | inr c ↦ rw c (breaks (not_open g c))
      ]

  owning :
      (o : Option SemaphoreMmap)
      → i.semap ≡ o
      → Sent place i b s ((lift (member o) >>= λ m. sem_wait m.semaphore_self >> rest m) s)
  unfolding member
  owning none e = breaks (no_semaphore e)
  owning (some m) e = waiting m m.semaphore_self e refl

  pub send_message-Sent : Sent place i b s (send_message place i (at b) s)
  unfolding send_message
  send_message-Sent = owning i.semap refl

-- A fault at a semaphore that has been closed.
pub data Breaks {A : Type 0} : Ending State A → Type 0 where
  broken : (h : ℕ) {t : State} → t.is_open h ≡ false → Breaks (fault dangling t)

pub Breaks-then :
    {A B : Type 0} {r : Ending State A} (k : A → Back B) → Breaks r → Breaks (and_then r k)
Breaks-then k (broken h c) = broken h c

-- With its semaphore closed.
pub send_again :
    (place : Placing) (i : WateRmq) (b : ℕ) (s : State) (h : ℕ)
    → Guarded i h
    → s.is_open h ≡ false
    → Breaks (send_message place i (at b) s)
unfolding send_message sem_wait member
send_again place i b s h g c =
    subst
      (λ o. Breaks ((lift (member o) >>= λ m. sem_wait m.semaphore_self >> rest place i b s m) s))
      (sym g.has_own)
      (subst (λ o. Breaks ((sem_wait o >> rest place i b s g.own) s)) (sym g.handle_at)
        (rw c (broken h c)))
