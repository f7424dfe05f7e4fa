-- ===== src/Queue.antt =====
-- The message queue of BackendC/librabbitmq/watermq/BackLibWaterRMQ.c: `Queue`, `initializeQueue`,
-- `isEmpty`, `isFull`, `enqueue`, `dequeue`, `peek`, `printQueue` and the constructor
-- `create_WateRMQ_ConsumingQueue_private`. A function that updates `*q` returns the new queue.
pub mod Rep
pub mod Enqueue
pub mod Take
pub mod Fifo
pub mod Create
mod Tests
use wate_rmq.Common.{
  ℕ, zero, suc, ◌+◌, ◌-◌, ◌*◌, ◌^◌, Bool, true, false, List, [], ◌∷◌, Option, none, some, ℤ, pos,
  negsuc, pos_part, ◌+ℤ◌, ◌-ℤ◌, eqb_ℤ, ltb, if◌then◌else◌,
}
use wate_rmq.Memory.{
  Ptr, null, at, text, str, int, World, Cmd, ok, out_of_bounds, int_range, pure, ◌>>=◌, ◌>>◌, crash,
  print, print_error, update, malloc, memcpy, read_string, strlen,
}

abbrev pub message_unit : ℕ
message_unit = 10

-- `MAX_SIZE`: the slots of the array.
abbrev pub max_size : ℕ
max_size = 4056 * message_unit

-- `front` is the index of the last message taken, `rear` that of the next free slot.
pub record Queue : Type 0 where
  pub items : ℕ → Ptr
  pub front : ℤ
  pub rear : ℤ

unfoldable pub initialize_queue : Queue → Queue
initialize_queue q = record q { front = negsuc 0; rear = pos 0 }

unfoldable pub is_empty : Queue → Bool
unfolding ◌-ℤ◌
is_empty q = eqb_ℤ q.front (q.rear -ℤ pos 1)

unfoldable pub is_full : Queue → Bool
is_full q = eqb_ℤ q.rear (pos max_size)

-- `items[i]`, read and written: an index outside the array is a fault.
unfoldable pub item : Queue → ℤ → Cmd Ptr
item q (pos i) = if ltb i max_size then pure (q.items i) else crash out_of_bounds
item q (negsuc i) = crash out_of_bounds

unfoldable pub set_item : Queue → ℤ → Ptr → Cmd Queue
set_item q (pos i) p =
    if ltb i max_size then pure (record q { items = update q.items i p }) else crash out_of_bounds
set_item q (negsuc i) p = crash out_of_bounds

-- `int _lenValue = strlen(value) + 1`.
unfoldable pub len_value : ℕ → Cmd ℕ
len_value n = if ltb (n + 1) (2 ^ 31) then pure (n + 1) else crash int_range

-- The end of `enqueue`, with the result of `malloc`.
unfoldable pub fill_slot : Queue → Ptr → ℕ → Ptr → Cmd Queue
unfolding ◌+ℤ◌ memcpy
fill_slot q value n null = do
  print_error (
      text "Impossible to perform malloc on enqueue : REAR="
      ∷ int q.rear
      ∷ text ", FRONT="
      ∷ int q.front
      ∷ text "\n"
      ∷ [])
  pure q
fill_slot q value n (at b) = do memcpy (at b) value n; pure (record q { rear = q.rear +ℤ pos 1 })

unfoldable pub enqueue : Queue → Ptr → Cmd Queue
unfolding is_full strlen len_value malloc set_item fill_slot
enqueue q value = if is_full q then (do print (text "Queue is full\n" ∷ []); pure q) else (do
  n ← strlen value
  size ← len_value n
  p ← malloc size
  q' ← set_item q q.rear p
  fill_slot q' value size p)

unfoldable pub dequeue : Queue → Cmd Queue
unfolding is_empty ◌+ℤ◌
dequeue q =
    if is_empty q
    then (do print (text "Queue is empty\n" ∷ []); pure q)
    else pure (record q { front = q.front +ℤ pos 1 })

unfoldable pub peek : Queue → Cmd Ptr
unfolding is_empty ◌+ℤ◌ item
peek q =
    if is_empty q
    then (do print (text "Queue is empty\n" ∷ []); pure null)
    else item q (q.front +ℤ pos 1)

-- The loop of `printQueue`, with the rounds that are left.
unfoldable pub print_items : Queue → ℕ → ℤ → Cmd (Unit {0})
unfolding item read_string ◌+ℤ◌
print_items q zero i = pure tt
print_items q (suc rounds) i = do
  p ← item q i
  s ← read_string p
  print (str s ∷ text " " ∷ [])
  print_items q rounds (i +ℤ pos 1)

-- `rear - (front + 1)` rounds: the loop runs while `i < rear`.
unfoldable pub print_queue : Queue → Cmd (Unit {0})
unfolding is_empty print_items ◌+ℤ◌ ◌-ℤ◌
print_queue q = if is_empty q then print (text "Queue is empty\n" ∷ []) else (do
  print (text "Current Queue: " ∷ [])
  print_items q (pos_part (q.rear -ℤ (q.front +ℤ pos 1))) (q.front +ℤ pos 1)
  print (text "\n" ∷ []))

-- `sizeof(Queue)`: the pointers of the array and two `int`s.
abbrev pub sizeof_queue : ℕ
sizeof_queue = max_size * 8 + 8

-- `raw` is what the fresh memory holds, `dot` the literal ".".
unfoldable pub create_consuming_queue : Queue → Ptr → Cmd (Option Queue)
create_consuming_queue raw dot = do
  block ← malloc sizeof_queue
  elim block [
    | null ↦ pure none
    | at _ ↦ do q ← enqueue (initialize_queue raw) dot; q' ← dequeue q; pure (some q')
  ]
