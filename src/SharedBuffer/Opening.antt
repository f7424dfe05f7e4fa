-- ===== src/SharedBuffer/Opening.antt =====
-- How the two programs of semaphore_test.c open their semaphores and their memory, and what a second
-- run finds: neither removes them.
use wate_rmq.Common.{ℕ, ◌≡◌, ◌<◌, refl, ap₂, arith, Bool, true, false, Option, none, some, []}
use wate_rmq.SharedBuffer.{State, opening, entering, init, Reach, next}
use wate_rmq.SharedBuffer.Safety.{Reach-Inv}
use wate_rmq.SharedBuffer.Progress.{Finished, Leads, here, onward}

-- `shared->in`, `shared->out` and `shared->buffer`.
pub record SharedData : Type 0 where
  pub in_at : ℕ
  pub out_at : ℕ
  pub buffer : ℕ → ℕ

-- What stands under the names "/empty", "/full" and "/shared_memory".
pub record KernelNames : Type 0 where
  pub empty : Option ℕ
  pub full : Option ℕ
  pub memory : Option SharedData

-- Which calls the system grants.
pub record Grants : Type 0 where
  pub sem_empty : Bool
  pub sem_full : Bool
  pub shm : Bool

abbrev zeros : SharedData
zeros = record { in_at = 0; out_at = 0; buffer = λ i. 0 }

-- `sem_open` and `shm_open` with O_CREAT: what is there is kept.
abbrev pub created {ℓ} : {A : Type ℓ} → Bool → Option A → A → Option A
created false there new = none
created true none new = some new
created true (some a) new = some a

-- The same without O_CREAT.
abbrev pub existing {ℓ} : {A : Type ℓ} → Bool → Option A → Option A
existing false there = none
existing true there = there

-- The state of both processes when all three are open; `none` where the source exits.
abbrev pub joined : Option ℕ → Option ℕ → Option SharedData → Option State
joined (some e) (some f) (some m) = some (record {
  empty = e;
  full = f;
  in_at = m.in_at;
  out_at = m.out_at;
  buffer = m.buffer;
  producer = opening;
  consumer = entering;
  got = [];
})
joined _ _ _ = none

-- The producer opens with O_CREAT, the consumer what it finds.
unfoldable pub producer_opens : Grants → ℕ → KernelNames → Option State
producer_opens g size n =
    joined (created g.sem_empty n.empty size) (created g.sem_full n.full 0)
      (created g.shm n.memory zeros)

unfoldable pub consumer_opens : Grants → KernelNames → Option State
consumer_opens g n =
    joined (existing g.sem_empty n.empty) (existing g.sem_full n.full) (existing g.shm n.memory)

abbrev pub no_names : KernelNames
no_names = record { empty = none; full = none; memory = none }

-- What the two programs leave behind.
abbrev pub left_by : State → KernelNames
left_by s = record {
  empty = some s.empty;
  full = some s.full;
  memory = some (record { in_at = s.in_at; out_at = s.out_at; buffer = s.buffer });
}

abbrev pub every_call : Grants
every_call = record { sem_empty = true; sem_full = true; shm = true }

-- Where a run leads is reachable.
pub Leads-Reach : {size : ℕ} {s t : State} → Reach size s → Leads size s t → Reach size t
Leads-Reach r here = r
Leads-Reach r (onward l st) = next (Leads-Reach r l) st

-- With a buffer that is not empty: the consumer exits if it comes first; the producer starts on nothing, and after any complete run on
-- what that has left, in the same way: with `empty` the size of the buffer and `full` 0.
pub opens_again :
    {size : ℕ} {s : State}
    → 0 < size
    → Reach size s
    → Finished s
    → (consumer_opens every_call no_names ≡ none)
      × (producer_opens every_call size no_names ≡ some (init size 0 0 (λ i. 0)))
      × (producer_opens every_call size (left_by s) ≡ some (init size s.in_at s.out_at s.buffer))
      × (consumer_opens every_call (left_by s) ≡ some (init size s.in_at s.out_at s.buffer))
unfolding producer_opens consumer_opens
opens_again {size} {s} h r (p, c) =
    let i = Reach-Inv h r in
    let at_size : s.empty ≡ size = ground (arith, i.empties) in
    let at_zero : s.full ≡ 0 = ground (arith, i.fulls) in
    let same = ap₂ (λ e f. joined (some e) (some f) (left_by s).memory) at_size at_zero in
    (refl, refl, same, same)
