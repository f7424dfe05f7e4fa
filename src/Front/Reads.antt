-- ===== src/Front/Reads.antt =====
-- `_readMessage` of FrontendCPP/WateRMQ.cpp as a whole, once and many times.
use wate_rmq.Common.{ℕ, suc, ◌≡◌, refl, ap, ◌∙◌, fun_ext, arith, List, some, true}
use wate_rmq.Memory.{World, update}
use wate_rmq.Process.{Queue, State, Outcome}
use wate_rmq.Machine.{ok, blocked}
use wate_rmq.Semaphores.{Semaphore, wait, post}
use wate_rmq.Front.{WateRmq, read_locked, read_message, read_with}
use wate_rmq.Front.Locked.{IsWell, Taken, read_locked-Withdraws}

-- The front end has its queue and an open semaphore.
pub record IsOpen (o : WateRmq) (s : State) : Type 0 where
  pub c : Semaphore
  pub handle : ℕ
  pub has_semaphore : o.sem ≡ some c
  pub has_handle : c.sem ≡ some handle
  pub has_queue : o.ptr_queue ≡ true
  pub usable : s.is_open handle ≡ true

lowered_raised : (v : ℕ → ℕ) (h n : ℕ) → v h ≡ suc n → update (update v h n) h (suc n) ≡ v
lowered_raised v h n e = fun_ext λ j. ground arith

at_self : (v : ℕ → ℕ) (h n : ℕ) → update v h n h ≡ n
at_self v h n = ground arith

wait-some :
    (c : Semaphore) (h n : ℕ) (s : State)
    → c.sem ≡ some h
    → s.is_open h ≡ true
    → s.value h ≡ suc n
    → wait c s ≡ ok tt (record s { value = update s.value h n })
unfolding wait
wait-some c h n s e f g = rw (e, f, g) refl

wait-zero :
    (c : Semaphore) (h : ℕ) (s : State)
    → c.sem ≡ some h
    → s.is_open h ≡ true
    → s.value h ≡ 0
    → wait c s ≡ blocked s
unfolding wait
wait-zero c h s e f g = rw (e, f, g) refl

post-ok :
    (c : Semaphore) (h : ℕ) (s : State)
    → c.sem ≡ some h
    → s.is_open h ≡ true
    → post c s ≡ ok tt (record s { value = update s.value h (suc (s.value h)) })
unfolding post
post-ok c h s e f = rw (e, f) refl

-- A read of a front end whose semaphore was not 0.
pub record Receives (s : State) (r : Outcome (List ℕ)) : Type 0 where
  pub message : List ℕ
  pub world : World
  pub queue : Queue
  pub result : r ≡ ok message (record s { world = world; queue = queue })
  pub how : Taken s.world s.queue message world queue
  pub well : IsWell world queue

read_with-ok :
    (c : Semaphore) (h n : ℕ) (s : State) {m : List ℕ} {w : World} {q : Queue}
    → c.sem ≡ some h
    → s.is_open h ≡ true
    → s.value h ≡ suc n
    → read_locked true (record s { value = update s.value h n })
      ≡ ok m (record s { value = update s.value h n; world = w; queue = q })
    → read_with (some c) true s ≡ ok m (record s { world = w; queue = q })
read_with-ok c h n s {m} {w} {q} e f g l =
    let u = record s { value = update s.value h n; world = w; queue = q } in
    rw (wait-some c h n s e f g, l, post-ok c h u e f)
      (ap (λ v. ok m (record s { value = v; world = w; queue = q }))
        (ap (λ k. update (update s.value h n) h (suc k)) (at_self s.value h n)
          ∙ lowered_raised s.value h n g))

-- On a front end with an open semaphore that is not 0, and a queue whose front is a slot and whose
-- slots are NULL or point to strings of their own, `_readMessage` gives the empty text and changes
-- nothing if no message is counted or the front is NULL; else it gives the string at the front, frees
-- its block, empties the slot, and moves the front and the count. The semaphore is as it was before.
pub read_message-Receives :
    (o : WateRmq) (s : State) (n : ℕ) (ready : IsOpen o s)
    → s.value ready.handle ≡ suc n
    → IsWell s.world s.queue
    → Receives s (read_message o s)
unfolding read_message
read_message-Receives o s n ready e well =
    let l = read_locked-Withdraws (record s { value = update s.value ready.handle n }) well in
    record {
      message = l.message;
      world = l.world;
      queue = l.queue;
      result =
          rw (ready.has_semaphore, ready.has_queue)
            (read_with-ok ready.c ready.handle n s ready.has_handle ready.usable e l.result);
      how = l.how;
      well = l.well;
    }

pub read_message-blocked :
    (o : WateRmq) (s : State) (ready : IsOpen o s)
    → s.value ready.handle ≡ 0
    → read_message o s ≡ blocked s
unfolding read_message
read_message-blocked o s ready e =
    rw ready.has_semaphore
      (rw (wait-zero ready.c ready.handle s ready.has_handle ready.usable e) refl)
