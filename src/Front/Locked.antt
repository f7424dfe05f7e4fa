-- ===== src/Front/Locked.antt =====
-- What `_readMessage` of FrontendCPP/WateRMQ.cpp does between its wait and its post.
use wate_rmq.Common.{
  ℕ, zero, suc, ◌+◌, ◌*◌, ◌%◌, ◌≡◌, ◌≢◌, ◌<◌, ◌⊎◌, inl, inr, refl, sym, ap, ◌∙◌, arith, List, [],
  Option-cases, none, some, pos, ◌-ℤ◌, lt→ltb, true, false, ℕ_discrete,
}
use wate_rmq.Memory.{Ptr, null, at, World, update, string_at, read_string}
use wate_rmq.Memory
use wate_rmq.Memory.Frame.{read_string-ok}
use wate_rmq.Process.{max_size, Queue, State, free}
use wate_rmq.Machine.{ok, pure}
use wate_rmq.Front.{is_empty, peek, remove, take_message, read_locked, next_front}

-- A slot is NULL, or points to a string.
abbrev pub Slot : World → Ptr → Type 0
Slot w p = (p ≡ null) ⊎ ((b : ℕ) × (m : List ℕ) × (p ≡ at b) × (string_at w (at b) ≡ some m))

-- No two slots share a block.
pub record IsApart (w : World) (items : ℕ → Ptr) : Type 0 where
  pub slot : (i : ℕ) → Slot w (items i)
  pub apart : (i j b : ℕ) → items i ≡ at b → items j ≡ at b → i ≡ j

-- The front is a slot, and the count is not negative.
pub record IsWell (w : World) (q : Queue) : Type 0 where
  pub front : ℕ
  pub count : ℕ
  pub front_at : q.front ≡ pos front
  pub front_lt : front < max_size
  pub count_at : q.count ≡ pos count
  pub slots : IsApart w q.items

abbrev pub hop : ℕ → ℕ
hop f = (f + 1) % 4096 * 10

-- The queue and the memory after slot `f`, which points to block `b`, has been taken off.
abbrev pub off : ℕ → ℕ → Queue → Queue
off f k q = record q { items = update q.items f null; front = pos (hop f); count = pos k }

abbrev pub freed : ℕ → World → World
freed b w = record w { block = update w.block b none }

hop_lt : (f : ℕ) → hop f < max_size
hop_lt f = omega arith

pub freed_keeps :
    (w : World) (b c : ℕ) (m : List ℕ)
    → b ≢ c
    → string_at w (at c) ≡ some m
    → string_at (freed b w) (at c) ≡ some m
freed_keeps w b c m ne e = ground arith

-- A slot that is not NULL afterwards is as it was.
pub kept_off :
    (items : ℕ → Ptr) (f i b : ℕ) → update items f null i ≡ at b → (f ≢ i) × (items i ≡ at b)
kept_off items f i b e = ground arith

module _ {w : World} {items : ℕ → Ptr} (slots : IsApart w items) (f b : ℕ)
    (e : items f ≡ at b) where
  slot_off : (i : ℕ) → Slot w (items i) → Slot (freed b w) (update items f null i)
  slot_off i (inl empty) = inl (ground arith)
  slot_off i (inr (c, m, g, h)) = elim (ℕ_discrete f i) [
    | yes same ↦ inl (ground arith)
    | no other ↦ inr (
      c,
      m,
      ground arith,
      freed_keeps w b c m (λ x. other (slots.apart f i b e (g ∙ ap at (sym x)))) h,
    )
  ]

  pub off-IsApart : IsApart (freed b w) (update items f null)
  off-IsApart = record {
    slot = λ i. slot_off i (slots.slot i);
    apart = λ i j c g h. slots.apart i j c (kept_off items f i c g).1 (kept_off items f j c h).1;
  }

off-IsWell :
    {w : World} {q : Queue} (well : IsWell w q) (b k : ℕ)
    → q.items well.front ≡ at b
    → IsWell (freed b w) (off well.front k q)
off-IsWell well b k e = record {
  front = hop well.front;
  count = k;
  front_at = refl;
  front_lt = hop_lt well.front;
  count_at = refl;
  slots = off-IsApart well.slots well.front b e;
}

pub free-live :
    (w : World) (b : ℕ) {bytes : List ℕ}
    → w.block b ≡ some bytes
    → free (at b) w ≡ Memory.ok tt (freed b w)
unfolding free
free-live w b e = rw e refl

pub live :
    (w : World) (b : ℕ) {m : List ℕ}
    → string_at w (at b) ≡ some m
    → (bytes : List ℕ) × (w.block b ≡ some bytes)
live w b e = elim (Option-cases (w.block b)) [ inl dead ↦ absurd (ground arith) | inr x ↦ x ]

remove-ok :
    (q : Queue) (f k : ℕ) (s : State)
    → q.front ≡ pos f
    → q.count ≡ pos (suc k)
    → remove q s ≡ ok tt (record s { queue = off f k q })
unfolding remove next_front ◌-ℤ◌
remove-ok q f k s e g = ground arith

-- What a read of the queue gives and leaves: nothing if no message is counted or the slot at the
-- front is NULL, and else the string of that slot.
pub data Taken (w : World) (q : Queue) : List ℕ → World → Queue → Type 0 where
  nothing :
      (q.count ≡ pos 0) ⊎ ((f : ℕ) × (q.front ≡ pos f) × (q.items f ≡ null)) → Taken w q [] w q
  taken :
      {f b k : ℕ} {m : List ℕ}
      → q.front ≡ pos f
      → q.count ≡ pos (suc k)
      → q.items f ≡ at b
      → string_at w (at b) ≡ some m
      → Taken w q m (freed b w) (off f k q)

pub record Withdraws (s : State) : Type 0 where
  pub message : List ℕ
  pub world : World
  pub queue : Queue
  pub result : read_locked true s ≡ ok message (record s { world = world; queue = queue })
  pub how : Taken s.world s.queue message world queue
  pub well : IsWell world queue

peek-empty : (q : Queue) → q.count ≡ pos 0 → peek q ≡ pure null
unfolding peek is_empty
peek-empty q e = rw e refl

is_empty-some : (q : Queue) (k : ℕ) → q.count ≡ pos (suc k) → is_empty q ≡ false
unfolding is_empty
is_empty-some q k e = ground (arith, e)

peek-some :
    (q : Queue) (f k : ℕ)
    → q.front ≡ pos f
    → f < max_size
    → q.count ≡ pos (suc k)
    → peek q ≡ pure (q.items f)
unfolding peek
peek-some q f k e lt g = rw (is_empty-some q k g, e, lt→ltb f max_size lt) refl

take_message-at :
    (q : Queue) (f b k : ℕ) (s : State) {m : List ℕ}
    → q.front ≡ pos f
    → q.count ≡ pos (suc k)
    → string_at s.world (at b) ≡ some m
    → take_message q (at b) s ≡ ok m (record s { world = freed b s.world; queue = off f k q })
unfolding take_message
take_message-at q f b k s {m} e g h =
    rw (read_string-ok s.world (at b) h, free-live s.world b (live s.world b h).1)
      (rw (remove-ok q f k (record s { world = freed b s.world }) e g) refl)

read_locked-null : (s : State) → peek s.queue ≡ pure null → read_locked true s ≡ ok [] s
unfolding read_locked take_message
read_locked-null s e = rw e refl

read_locked-at :
    (s : State) (f b k : ℕ) {m : List ℕ}
    → s.queue.front ≡ pos f
    → f < max_size
    → s.queue.count ≡ pos (suc k)
    → s.queue.items f ≡ at b
    → string_at s.world (at b) ≡ some m
    → read_locked true s ≡ ok m (record s { world = freed b s.world; queue = off f k s.queue })
unfolding read_locked
read_locked-at s f b k e lt g i h =
    rw (peek-some s.queue f k e lt g, i) (take_message-at s.queue f b k s e g h)

locked :
    (s : State) (well : IsWell s.world s.queue) (k : ℕ)
    → s.queue.count ≡ pos k
    → Slot s.world (s.queue.items well.front)
    → Withdraws s
locked s well zero e slot = record {
  message = [];
  world = s.world;
  queue = s.queue;
  result = read_locked-null s (peek-empty s.queue e);
  how = nothing (inl e);
  well = well;
}
locked s well (suc k) e (inl empty) = record {
  message = [];
  world = s.world;
  queue = s.queue;
  result =
      read_locked-null s
        (peek-some s.queue well.front k well.front_at well.front_lt e ∙ ap pure empty);
  how = nothing (inr (well.front, well.front_at, empty));
  well = well;
}
locked s well (suc k) e (inr (b, m, f, g)) = record {
  message = m;
  world = freed b s.world;
  queue = off well.front k s.queue;
  result = read_locked-at s well.front b k well.front_at well.front_lt e f g;
  how = taken well.front_at e f g;
  well = off-IsWell well b k f;
}

pub read_locked-Withdraws : (s : State) → IsWell s.world s.queue → Withdraws s
read_locked-Withdraws s well = locked s well well.count well.count_at (well.slots.slot well.front)
