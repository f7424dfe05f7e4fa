-- ===== src/Front/Cleanup.antt =====
-- `_cleanup` of FrontendCPP/WateRMQ.cpp: what it gives back, and what a second one does.
use wate_rmq.Common.{ℕ, ◌≡◌, ◌≢◌, ◌<◌, refl, arith, [], ◌∷◌, ◌++◌, none, some, true, false}
use wate_rmq.Memory.{null, at, update}
use wate_rmq.Process.{max_size, State, Outcome, unmapped, unlinked, semaphore_closed}
use wate_rmq.Machine.{ok}
use wate_rmq.Semaphores.{Semaphore, destruct}
use wate_rmq.Front.{sizeof_queue, WateRmq, free_items, unmap, delete, cleanup}
use wate_rmq.Front.Locked.{IsApart}
use wate_rmq.Front.Reads.{IsOpen}
use wate_rmq.Front.Frees.{Frees, free_items-Frees}

-- The object after a clean-up.
abbrev pub bare : WateRmq → WateRmq
bare o = record o { running = false; ptr_queue = false; sem = none }

-- What a clean-up leaves.
pub record Cleans (o : WateRmq) (s : State) (handle : ℕ) (r : Outcome WateRmq) : Type 0 where
  pub after : State
  pub result : r ≡ ok (bare o) after
  pub emptied : (j : ℕ) → j < max_size → after.queue.items j ≡ null
  pub gone : (j b : ℕ) → j < max_size → s.queue.items j ≡ at b → after.world.block b ≡ none
  pub kept :
      (c : ℕ)
      → ((j : ℕ) → j < max_size → s.queue.items j ≢ at c)
      → after.world.block c ≡ s.world.block c
  pub said :
      after.events
      ≡ ((s.events ++ unmapped sizeof_queue ∷ []) ++ semaphore_closed handle ∷ [])
        ++ unlinked o.filename ∷ []
  pub shut : after.is_open handle ≡ false
  pub again :
      cleanup (bare o) after
      ≡ ok (bare o) (record after { events = after.events ++ unlinked o.filename ∷ [] })

delete-ok :
    (c : Semaphore) (h : ℕ) (s : State)
    → c.sem ≡ some h
    → c.is_named ≡ true
    → s.is_open h ≡ true
    → delete (some c) s
      ≡ ok tt (record s {
        is_open = update s.is_open h false;
        events = s.events ++ semaphore_closed h ∷ [];
      })
unfolding delete destruct
delete-ok c h s e f g = rw (f, e) (rw g refl)

module _ (o : WateRmq) (s : State) (ready : IsOpen o s) (named : ready.c.is_named ≡ true)
    (slots : IsApart s.world s.queue.items) where
  frees : Frees s max_size 0 (free_items max_size 0 s)
  frees = free_items-Frees max_size 0 s slots

  abbrev cleaned : State
  cleaned = record s {
    world = frees.world;
    queue = record s.queue { items = frees.items };
    is_open = update s.is_open ready.handle false;
    events =
        ((s.events ++ unmapped sizeof_queue ∷ []) ++ semaphore_closed ready.handle ∷ [])
        ++ unlinked o.filename ∷ [];
  }

  abbrev unmapped_state : State
  unmapped_state = record s {
    world = frees.world;
    queue = record s.queue { items = frees.items };
    events = s.events ++ unmapped sizeof_queue ∷ [];
  }

  cleanup-ok : cleanup o s ≡ ok (bare o) cleaned
  unfolding cleanup unmap
  cleanup-ok =
      rw (ready.has_queue, ready.has_semaphore)
        (rw
          (
            frees.result,
            delete-ok ready.c ready.handle unmapped_state ready.has_handle named ready.usable,
          )
          refl)

  -- On a front end with a queue, whose slots are NULL or point to strings of their own, and an open
  -- named semaphore, `_cleanup` empties every slot and frees the blocks that the slots pointed to and
  -- no other; it unmaps the queue, closes the semaphore and unlinks the memory, in this order. A
  -- second `_cleanup` does nothing but unlink again.
  pub cleanup-Cleans : Cleans o s ready.handle (cleanup o s)
  unfolding cleanup unmap delete
  cleanup-Cleans = record {
    after = cleaned;
    result = cleanup-ok;
    emptied = λ j h. frees.emptied j (omega arith) h;
    gone = λ j b h e. frees.gone j b (omega arith) h e;
    kept = λ c h. frees.kept c λ j x y e. h j y e;
    said = refl;
    shut = ground arith;
    again = refl;
  }
