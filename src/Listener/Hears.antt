-- ===== src/Listener/Hears.antt =====
-- The loop of FrontendCPP/WateRMQCPP.cpp: what it has read and printed after so many rounds.
use wate_rmq.Common.{
  ℕ, zero, suc, ◌+◌, ◌^◌, ◌≡◌, ◌≤◌, ◌<◌, refl, sym, ap, ◌∙◌, arith, List, [], ◌∷◌, ◌++◌, append-nil,
  append_assoc, length,
}
use wate_rmq.Memory.{Piece, World}
use wate_rmq.Process.{Queue, State, Outcome, slept}
use wate_rmq.Machine.{running}
use wate_rmq.Front.{WateRmq, consuming_message}
use wate_rmq.Front.Locked.{IsWell, Taken}
use wate_rmq.Front.Reads.{IsOpen, read_message-Receives}
use wate_rmq.Listener.{Notifier, Json, listen}
use wate_rmq.Listener.Journal.{
  lines, complaint_of, numbered, journal, complaints, said, on_data-said,
}

-- Messages taken off one after the other, by a process that changes nothing else of its memory.
pub data Drains : World → Queue → List (List ℕ) → World → Queue → Type 0 where
  end : {w : World} {q : Queue} → Drains w q [] w q
  next :
      {w v v' u : World} {q r t : Queue} {m : List ℕ} {ms : List (List ℕ)}
      → Taken w q m v r
      → v'.block ≡ v.block
      → Drains v' r ms u t
      → Drains w q (m ∷ ms) u t

-- The loop goes on after `n` rounds: it has taken one message, or the empty text, in each, and has
-- printed what the journal says of them.
pub record Hears (json : Json) (ns : List Notifier) (count n : ℕ) (s : State)
    (r : Outcome (Unit {0})) : Type 0 where
  pub messages : List (List ℕ)
  pub after : State
  pub result : r ≡ running after
  pub rounds : length messages ≡ n
  pub drained : Drains s.world s.queue messages after.world after.queue
  pub stdout : after.world.stdout ≡ s.world.stdout ++ journal json ns count messages
  pub stderr : after.world.stderr ≡ s.world.stderr ++ complaints json messages

-- The state after one round.
abbrev round_state : Json → List Notifier → ℕ → List ℕ → World → Queue → State → State
round_state json ns count m w q s =
    let t =
      said (lines json ns count m) (complaint_of json m) (record s { world = w; queue = q }) in
    record t { events = t.events ++ slept 10000 ∷ [] }

numbered-le : (count : ℕ) (m : List ℕ) → numbered count m ≤ count + 1
numbered-le count [] = omega arith
numbered-le count (c ∷ cs) = omega arith

Taken-prints :
    {w v : World} {q r : Queue} {m : List ℕ}
    → Taken w q m v r
    → (v.stdout ≡ w.stdout) × (v.stderr ≡ w.stderr)
Taken-prints (Taken.nothing _) = (refl, refl)
Taken-prints (Taken.taken _ _ _ _) = (refl, refl)

module _ (json : Json) (ns : List Notifier) (o : WateRmq) where
  IsOpen-round :
      (m : List ℕ) (w : World) (q : Queue) {s : State} (count : ℕ)
      → IsOpen o s
      → IsOpen o (round_state json ns count m w q s)
  IsOpen-round m w q count r = record {
    c = r.c;
    handle = r.handle;
    has_semaphore = r.has_semaphore;
    has_handle = r.has_handle;
    has_queue = r.has_queue;
    usable = r.usable;
  }

  pub IsWell-said :
      {w : World} {q : Queue} (out err : List Piece)
      → IsWell w q
      → IsWell (record w { stdout = out; stderr = err }) q
  IsWell-said out err well = record {
    front = well.front;
    count = well.count;
    front_at = well.front_at;
    front_lt = well.front_lt;
    count_at = well.count_at;
    slots = record { slot = well.slots.slot; apart = well.slots.apart };
  }

  -- From an open front end whose semaphore is not 0 and whose queue is well-formed, each slot holding
  -- NULL or a live string of its own, the loop never ends and never fails, as long as its counter
  -- does not overflow: each round takes what the queue gives, and prints the lines and the complaints
  -- of the messages in their order.
  pub listen-Hears :
      (n count : ℕ) (s : State) (value : ℕ) (ready : IsOpen o s)
      → s.value ready.handle ≡ suc value
      → IsWell s.world s.queue
      → count + n < 2 ^ 31
      → Hears json ns count n s (listen json ns o n count s)
  unfolding listen consuming_message IsOpen-round
  listen-Hears zero count s value ready e well fits = record {
    messages = [];
    after = s;
    result = refl;
    rounds = refl;
    drained = end;
    stdout = sym (append-nil s.world.stdout);
    stderr = sym (append-nil s.world.stderr);
  }
  listen-Hears (suc n) count s value ready e well fits =
      let r = read_message-Receives o s value ready e well in
      let m = r.message in
      let t = round_state json ns count m r.world r.queue s in
      let rest =
        listen-Hears n (numbered count m) t value
          (IsOpen-round m r.world r.queue {s = s} count ready) e
          (IsWell-said (r.world.stdout ++ lines json ns count m)
            (r.world.stderr ++ complaint_of json m) r.well)
          (omega (arith, numbered-le count m)) in
      record {
        messages = m ∷ rest.messages;
        after = rest.after;
        result =
            rw
              (
                r.result,
                on_data-said json ns count m (record s { world = r.world; queue = r.queue })
                    (omega arith),
              )
              rest.result;
        rounds = ap suc rest.rounds;
        drained = next r.how refl rest.drained;
        stdout =
            rest.stdout
            ∙ ap
                (λ x.
                  (x ++ lines json ns count m) ++ journal json ns (numbered count m) rest.messages)
                (Taken-prints r.how).0
            ∙ append_assoc s.world.stdout (lines json ns count m)
                (journal json ns (numbered count m) rest.messages);
        stderr =
            rest.stderr
            ∙ ap (λ x. (x ++ complaint_of json m) ++ complaints json rest.messages)
                (Taken-prints r.how).1
            ∙ append_assoc s.world.stderr (complaint_of json m) (complaints json rest.messages);
      }
