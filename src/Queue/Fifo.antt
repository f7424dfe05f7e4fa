-- ===== src/Queue/Fifo.antt =====
-- The contract of the queue: a first-in first-out list that takes a bounded number of messages in
-- its whole life, because BackLibWaterRMQ.c never uses a slot again.
use wate_rmq.Common.{
  ℕ, suc, ◌+◌, ◌^◌, ◌≡◌, ◌<◌, refl, sym, subst, true, List, [], ◌∷◌, ◌++◌, some, arith, length,
  drop, ltb, if◌then◌else◌,
}
use wate_rmq.Memory.{Ptr, World, Cmd, Run, and_then, pure, ◌>>=◌, string_at}
use wate_rmq.Memory.Frame.{IsSound, Extends, Extends-trans, Extends-refl, string_at-Extends}
use wate_rmq.Queue.{Queue, max_size, enqueue, dequeue}
use wate_rmq.Queue.Rep.{Rep}
use wate_rmq.Queue.Enqueue.{Ends, enqueue-Ends, admits}
use wate_rmq.Queue.Take.{taken, dequeue-Ends}

-- The calls of a client, with a pointer to the message.
pub data Call : Type 0 where
  put : Ptr → Call
  take_off : Call

pub run : List Call → Queue → Cmd Queue
run [] q = pure q
run (put p ∷ calls) q = do q' ← enqueue q p; run calls q'
run (take_off ∷ calls) q = do q' ← dequeue q; run calls q'

-- The same calls with the messages themselves.
pub data Action : Type 0 where
  send : List ℕ → Action
  receive : Action

-- The messages taken so far, and those that wait.
pub record Fifo : Type 0 where
  pub gone : ℕ
  pub held : List (List ℕ)

pub act : Action → Fifo → Fifo
act (send s) f = record f {
  held = if ltb (f.gone + length f.held) max_size then f.held ++ s ∷ [] else f.held;
}
act receive f = record { gone = f.gone + taken f.held; held = drop 1 f.held }

pub behave : List Action → Fifo → Fifo
behave [] f = f
behave (a ∷ acts) f = behave acts (act a f)

-- Each call hands over a pointer to the message of its action.
abbrev pub Names : World → List Call → List Action → Type 0
Names w [] [] = Unit {0}
Names w (put p ∷ cs) (send s ∷ acts) =
    (string_at w p ≡ some s) × (length s + 1 < 2 ^ 31) × Names w cs acts
Names w (take_off ∷ cs) (receive ∷ acts) = Names w cs acts
Names w _ _ = ⊥

abbrev pub Generous : World → Type 0
Generous w = (n size : ℕ) → w.grants n size ≡ true

-- What follows a run that ends goes on from where it ended.
Ends-after :
    {w : World} {m : Run Queue} {gone gone' : ℕ} {xs ys : List (List ℕ)} (k : Queue → Cmd Queue)
    (e : Ends w m gone xs)
    → Ends e.world (k e.queue e.world) gone' ys
    → Ends w (and_then m k) gone' ys
Ends-after {w} {gone'} {ys} k e f =
    subst (λ m. Ends w (and_then m k) gone' ys) (sym e.result)
      (record {
        world = f.world;
        queue = f.queue;
        result = f.result;
        sound = f.sound;
        extends = Extends-trans e.extends f.extends;
        holds = f.holds;
      })

Names-Extends :
    {w v : World} (cs : List Call) (acts : List Action)
    → IsSound w
    → Extends w v
    → Names w cs acts
    → Names v cs acts
Names-Extends [] [] s e h = tt
Names-Extends (put p ∷ cs) (send m ∷ acts) s e (h, k, l) =
    (string_at-Extends p s e h, k, Names-Extends cs acts s e l)
Names-Extends (take_off ∷ cs) (receive ∷ acts) s e h = Names-Extends cs acts s e h
Names-Extends _ _ s e h = elim h [ ]

Generous-Extends : {w v : World} → Extends w v → Generous w → Generous v
Generous-Extends e g n size = subst (λ f. f n size ≡ true) (sym e.granting) (g n size)

-- While `malloc` grants every call, any sequence of `enqueue` and `dequeue` ends without a fault
-- and leaves the queue with what the bounded-lifetime list of messages holds after them.
pub run_refines :
    (calls : List Call) (actions : List Action) {w : World} {q : Queue} {f : Fifo}
    → IsSound w
    → Generous w
    → Rep w q f.gone f.held
    → Names w calls actions
    → Ends w (run calls q w) (behave actions f).gone (behave actions f).held
unfolding run behave act
run_refines [] [] s g r n = record {
  world = _;
  queue = _;
  result = refl;
  sound = s;
  extends = Extends-refl _;
  holds = r;
}
run_refines (put p ∷ cs) (send m ∷ acts) {w} {q} {f} s g r (h, k, l) = Ends-after (run cs) e (
    run_refines cs acts {f = act (send m) f} e.sound (Generous-Extends e.extends g)
      (subst (Rep e.world e.queue f.gone) (ground (arith, g w.next (length m + 1))) e.holds)
      (Names-Extends cs acts s e.extends l))
  where
    e :
        Ends w
          (enqueue q p w)
          f.gone
          (if admits w (f.gone + length f.held) (length m) then f.held ++ m ∷ [] else f.held)
    e = enqueue-Ends p m s r h k
run_refines (take_off ∷ cs) (receive ∷ acts) {f} s g r n =
    let e = dequeue-Ends f.held s r in
    Ends-after (run cs) e (
      run_refines cs acts {f = act receive f} e.sound (Generous-Extends e.extends g) e.holds
        (Names-Extends cs acts s e.extends n))
run_refines _ _ s g r n = elim n [ ]

-- Every put of the calls hands over a string.
abbrev pub Sendable : World → List Call → Type 0
Sendable w [] = Unit {0}
Sendable w (put p ∷ cs) =
    ((s : List ℕ) × (string_at w p ≡ some s) × (length s + 1 < 2 ^ 31)) × Sendable w cs
Sendable w (take_off ∷ cs) = Sendable w cs

Sendable-Extends :
    {w v : World} (cs : List Call) → IsSound w → Extends w v → Sendable w cs → Sendable v cs
Sendable-Extends [] s e h = tt
Sendable-Extends (put p ∷ cs) s e ((m, h, k), l) =
    ((m, string_at-Extends p s e h, k), Sendable-Extends cs s e l)
Sendable-Extends (take_off ∷ cs) s e h = Sendable-Extends cs s e h

-- The run ended, and `taken` messages were taken off while none was added.
pub record Drains (w : World) (r : Run Queue) (gone : ℕ) (xs : List (List ℕ)) : Type 0 where
  pub count : ℕ
  pub ends : Ends w r (gone + count) (drop count xs)

drain_step :
    {w : World} {r : Run Queue} (gone : ℕ) (xs : List (List ℕ)) (k : ℕ)
    → Ends w r (gone + taken xs + k) (drop k (drop 1 xs))
    → Drains w r gone xs
drain_step {w} {r} gone [] k e = record {
  count = k;
  ends = subst (λ g. Ends w r g (drop k [])) (omega arith) e;
}
drain_step {w} {r} gone (x ∷ xs) k e = record {
  count = suc k;
  ends = subst (λ g. Ends w r g (drop k xs)) (omega arith) e;
}

Drains-after :
    {w : World} {m : Run Queue} {gone : ℕ} {xs : List (List ℕ)} (k : Queue → Cmd Queue)
    (e : Ends w m gone xs)
    → Drains e.world (k e.queue e.world) gone xs
    → Drains w (and_then m k) gone xs
Drains-after k e d = record { count = d.count; ends = Ends-after k e d.ends }

total :
    (gone : ℕ) (xs : List (List ℕ))
    → gone + length xs ≡ max_size
    → gone + taken xs + length (drop 1 xs) ≡ max_size
total gone [] h = omega arith
total gone (x ∷ xs) h = omega arith

-- Once every slot has been used the queue is full for life: whatever is called after that, no
-- message is ever added, also when all of them have been taken.
pub full_for_life :
    (calls : List Call) {w : World} {q : Queue} {gone : ℕ} {xs : List (List ℕ)}
    → IsSound w
    → Rep w q gone xs
    → Sendable w calls
    → gone + length xs ≡ max_size
    → Drains w (run calls q w) gone xs
unfolding run
full_for_life [] {w} {q} {gone} {xs} s r n full = record {
  count = 0;
  ends = record {
    world = w;
    queue = q;
    result = refl;
    sound = s;
    extends = Extends-refl w;
    holds = subst (λ g. Rep w q g xs) (omega arith) r;
  };
}
full_for_life (put p ∷ cs) {w} {q} {gone} {xs} s r ((m, h, k), l) full =
    Drains-after (run cs) e
      (full_for_life cs e.sound e.holds (Sendable-Extends cs s e.extends l) full)
  where
    e : Ends w (enqueue q p w) gone xs
    e = subst (Ends w (enqueue q p w) gone) (ground arith) (enqueue-Ends p m s r h k)
full_for_life (take_off ∷ cs) {w} {q} {gone} {xs} s r n full =
    let e = dequeue-Ends xs s r in
    let d =
      full_for_life cs e.sound e.holds (Sendable-Extends cs s e.extends n) (total gone xs full) in
    drain_step gone xs d.count (Ends-after (run cs) e d.ends)
