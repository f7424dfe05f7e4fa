-- ===== src/Front/Slots.antt =====
-- Which slots of the queue the front end ever looks at. The macro MAX_SIZE of FrontendCPP/WateRMQ.hpp is
-- a product without parentheses, so `(front + 1) % MAX_SIZE` is ten times a remainder.
use wate_rmq.Common.{
  ℕ, zero, suc, ◌%◌, ◌≡◌, ◌≢◌, refl, sym, ap, ◌∙◌, arith, List, [], ◌∷◌, some, pos, pos_part,
}
use wate_rmq.Memory.{Ptr, null, at, World, update, string_at}
use wate_rmq.Process.{Queue, State, Outcome, Proc}
use wate_rmq.Machine.{ok, pure, ◌>>=◌}
use wate_rmq.Front.{WateRmq, read_message}
use wate_rmq.Front.Locked.{IsWell, Taken, nothing, taken, hop}
use wate_rmq.Front.Reads.{IsOpen, read_message-Receives}

-- The messages of so many reads, one after the other.
abbrev pub read_times : ℕ → WateRmq → Proc (List (List ℕ))
read_times zero o = pure []
read_times (suc n) o = read_message o >>= λ m. read_times n o >>= λ ms. pure (m ∷ ms)

-- The front is a multiple of ten.
abbrev pub IsTenth : Queue → Type 0
IsTenth q = (f : ℕ) × (q.front ≡ pos f) × (f % 10 ≡ 0)

pub pos-inj : {a b : ℕ} → pos a ≡ pos b → a ≡ b
pos-inj e = ap pos_part e

pub elsewhere : (items : ℕ → Ptr) (f i : ℕ) → f ≢ i → update items f null i ≡ items i
elsewhere items f i ne = ground arith

tenth_differs : (f g i : ℕ) → f ≡ g → g % 10 ≡ 0 → i % 10 ≢ 0 → f ≢ i
tenth_differs f g i e z ne h = ne (ap (λ j. j % 10) (sym h ∙ e) ∙ z)

pub null-at : {p : Ptr} {b : ℕ} → p ≡ null → p ≡ at b → ⊥
null-at e f = cc

pub null-string : (w : World) {p : Ptr} {m : List ℕ} → p ≡ null → string_at w p ≡ some m → ⊥
null-string w e h = cc

pub zero-suc : {k : ℕ} → pos 0 ≡ pos (suc k) → ⊥
zero-suc e = omega (arith, pos-inj e)

pub suc-inj : {a b : ℕ} → suc a ≡ suc b → a ≡ b
suc-inj e = omega arith

pub some-inj : {a b : List ℕ} → some a ≡ some b → a ≡ b
some-inj e = cc

Taken-Tenth :
    {w v : World} {q r : Queue} {m : List ℕ}
    → Taken w q m v r
    → IsTenth q
    → IsTenth r × ((i : ℕ) → i % 10 ≢ 0 → r.items i ≡ q.items i)
Taken-Tenth (nothing _) t = (t, λ i h. refl)
Taken-Tenth {q} (taken {f} {b} {k} e _ _ _) (g, h, z) = (
  (hop f, refl, omega arith),
  λ i ne. elsewhere q.items f i (tenth_differs f g i (pos-inj (sym e ∙ h)) z ne),
)

-- The reads end, and leave every slot alone whose index is not a multiple of ten.
pub record Skips (s : State) (r : Outcome (List (List ℕ))) : Type 0 where
  pub messages : List (List ℕ)
  pub world : World
  pub queue : Queue
  pub result : r ≡ ok messages (record s { world = world; queue = queue })
  pub well : IsWell world queue
  pub tenth : IsTenth queue
  pub kept : (i : ℕ) → i % 10 ≢ 0 → queue.items i ≡ s.queue.items i

unfoldable pub IsOpen-same :
    {o : WateRmq} {s : State} (w : World) (q : Queue)
    → IsOpen o s
    → IsOpen o (record s { world = w; queue = q })
IsOpen-same w q r = record {
  c = r.c;
  handle = r.handle;
  has_semaphore = r.has_semaphore;
  has_handle = r.has_handle;
  has_queue = r.has_queue;
  usable = r.usable;
}

-- With an open semaphore that is not 0 and a well-formed queue, each of whose slots holds NULL or a
-- live string of its own, and which starts at a multiple of ten, such as a new one, reads never fault,
-- and never reach nine of ten slots.
pub read_times-Skips :
    (n : ℕ) (o : WateRmq) (s : State) (value : ℕ) (ready : IsOpen o s)
    → s.value ready.handle ≡ suc value
    → IsWell s.world s.queue
    → IsTenth s.queue
    → Skips s (read_times n o s)
unfolding IsOpen-same
read_times-Skips zero o s value ready e well t = record {
  messages = [];
  world = s.world;
  queue = s.queue;
  result = refl;
  well = well;
  tenth = t;
  kept = λ i h. refl;
}
read_times-Skips (suc n) o s value ready e well t =
    let r = read_message-Receives o s value ready e well in
    let (t', kept) = Taken-Tenth r.how t in
    let rest =
      read_times-Skips n o (record s { world = r.world; queue = r.queue }) value
        (IsOpen-same r.world r.queue ready) e r.well t' in
    record {
      messages = r.message ∷ rest.messages;
      world = rest.world;
      queue = rest.queue;
      result = rw (r.result, rest.result) refl;
      well = rest.well;
      tenth = rest.tenth;
      kept = λ i h. rest.kept i h ∙ kept i h;
    }
