-- ===== src/SharedBuffer.antt =====
-- semaphore_test.c: one producer and one consumer over a shared ring of BUFFER_SIZE slots, with the
-- semaphores "/empty" and "/full". A step is one access to what the two processes share; they
-- interleave in any order, once both have opened the semaphores and mapped the memory (Opening).
pub mod Inv
pub mod Safety
pub mod Progress
pub mod Opening
mod Tests
use wate_rmq.Common.{ℕ, zero, suc, ◌+◌, ◌-◌, ◌%◌, ◌≡◌, ◌<◌, ◌≤◌, List, [], ◌∷◌, ◌++◌}
use wate_rmq.Memory.{update}

-- Both loops run for `i = 1` to `10`.
abbrev pub rounds : ℕ
rounds = 10

-- Where the producer stands; `k` rounds are done, so that its loop variable `i` is `k + 1`.
pub data Producer : Type 0 where
  opening : Producer  -- before `shared->in = 0`
  reserve : (k : ℕ) → Producer  -- at the test of the loop, then before `sem_wait(empty)`
  write : (k : ℕ) → Producer  -- before `shared->buffer[shared->in] = i`
  advance : (k : ℕ) → Producer  -- before `shared->in = (shared->in + 1) % BUFFER_SIZE`
  publish : (k : ℕ) → Producer  -- before `sem_post(full)`
  closed : Producer  -- behind the loop

pub data Consumer : Type 0 where
  entering : Consumer  -- before `shared->out = 0`
  await : (k : ℕ) → Consumer  -- at the test of the loop, then before `sem_wait(full)`
  read : (k : ℕ) → Consumer  -- before `item = shared->buffer[shared->out]`
  go_on : (k : ℕ) → Consumer  -- before `shared->out = (shared->out + 1) % BUFFER_SIZE`
  release : (k : ℕ) → Consumer  -- before `sem_post(empty)`
  left : Consumer  -- behind the loop

-- `in_at` and `out_at` are `shared->in` and `shared->out`; `got` is what the consumer has printed.
pub record State : Type 0 where
  pub empty : ℕ
  pub full : ℕ
  pub in_at : ℕ
  pub out_at : ℕ
  pub buffer : ℕ → ℕ
  pub producer : Producer
  pub consumer : Consumer
  pub got : List ℕ

-- The value of `empty` at its creation is BUFFER_SIZE, that of `full` 0; the memory holds anything.
abbrev pub init : (size in_at out_at : ℕ) → (ℕ → ℕ) → State
init size i o b = record {
  empty = size;
  full = 0;
  in_at = i;
  out_at = o;
  buffer = b;
  producer = opening;
  consumer = entering;
  got = [];
}

pub data Step (size : ℕ) (s : State) : State → Type 0 where
  set_in : s.producer ≡ opening → Step size s (record s { in_at = 0; producer = reserve 0 })
  wait_empty :
      {k e : ℕ}
      → s.producer ≡ reserve k
      → k < rounds
      → s.empty ≡ suc e
      → Step size s (record s { empty = e; producer = write k })
  put_item :
      {k : ℕ}
      → s.producer ≡ write k
      → Step size s (record s { buffer = update s.buffer s.in_at (k + 1); producer = advance k })
  move_in :
      {k : ℕ}
      → s.producer ≡ advance k
      → Step size s (record s { in_at = (s.in_at + 1) % size; producer = publish k })
  post_full :
      {k : ℕ}
      → s.producer ≡ publish k
      → Step size s (record s { full = s.full + 1; producer = reserve (k + 1) })
  stop_producing :
      {k : ℕ} → s.producer ≡ reserve k → rounds ≤ k → Step size s (record s { producer = closed })
  set_out : s.consumer ≡ entering → Step size s (record s { out_at = 0; consumer = await 0 })
  wait_full :
      {k f : ℕ}
      → s.consumer ≡ await k
      → k < rounds
      → s.full ≡ suc f
      → Step size s (record s { full = f; consumer = read k })
  get_item :
      {k : ℕ}
      → s.consumer ≡ read k
      → Step size s (record s { got = s.got ++ s.buffer s.out_at ∷ []; consumer = go_on k })
  move_out :
      {k : ℕ}
      → s.consumer ≡ go_on k
      → Step size s (record s { out_at = (s.out_at + 1) % size; consumer = release k })
  post_empty :
      {k : ℕ}
      → s.consumer ≡ release k
      → Step size s (record s { empty = s.empty + 1; consumer = await (k + 1) })
  stop_consuming :
      {k : ℕ} → s.consumer ≡ await k → rounds ≤ k → Step size s (record s { consumer = left })

pub data Reach (size : ℕ) : State → Type 0 where
  start : (i o : ℕ) (b : ℕ → ℕ) → Reach size (init size i o b)
  next : {s t : State} → Reach size s → Step size s t → Reach size t
