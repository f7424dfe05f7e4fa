-- ===== src/Queue/Take.antt =====
-- `dequeue`, `peek` and `printQueue` of BackLibWaterRMQ.c on a queue that holds strings.
use wate_rmq.Common.{
  ℕ, suc, ◌+◌, ◌≡◌, ◌≤◌, sym, ap, subst, ◌∙◌, List, [], ◌∷◌, ◌++◌, some, append-nil, ap₂, pos,
  pos_part, arith, length, ◌+ℤ◌, ◌-ℤ◌, drop,
}
use wate_rmq.Memory.{Ptr, null, World, string_at, Run, ok, text, str, Piece}
use wate_rmq.Memory.Frame.{
  IsSound, Extends-refl, read_string-ok, printed, printed-IsSound, printed-Extends, printed-printed,
}
use wate_rmq.Queue.{Queue, dequeue, peek, print_items, print_queue}
use wate_rmq.Queue.Rep.{
  Holds, Rep, Rep-Extends, Holds-Extends, before, front_next, is_empty-Rep, item_at,
}
use wate_rmq.Queue.Enqueue.{Ends}

-- The number of messages that one `dequeue` takes.
abbrev pub taken : List (List ℕ) → ℕ
taken [] = 0
taken (x ∷ xs) = 1

-- `dequeue` takes the oldest message off, and leaves an empty queue as it is; nothing is freed.
pub dequeue-Ends :
    {w : World} {q : Queue} {gone : ℕ} (xs : List (List ℕ))
    → IsSound w
    → Rep w q gone xs
    → Ends w (dequeue q w) (gone + taken xs) (drop 1 xs)
unfolding dequeue
dequeue-Ends {w} {q} {gone} [] s r = record {
  world = printed w (text "Queue is empty\n" ∷ []);
  queue = q;
  result = ground (arith, is_empty-Rep r);
  sound = printed-IsSound _ s;
  extends = printed-Extends w _;
  holds =
      subst (λ k. Rep (printed w (text "Queue is empty\n" ∷ [])) q k []) (omega arith)
        (Rep-Extends s (printed-Extends w _) r);
}
dequeue-Ends {w} {q} {gone} (x ∷ xs) s r = record {
  world = w;
  queue = record q { front = pos gone };
  result = ground (arith, is_empty-Rep r, front_next r);
  sound = s;
  extends = Extends-refl w;
  holds = record {
    front_at = ap before {x = suc gone} (omega arith);
    rear_at = r.rear_at ∙ ap pos (omega arith);
    fits = omega (arith, r.fits);
    held = subst (λ k. Holds w q.items k xs) (omega arith) r.held.1;
  };
}

-- The answer of `peek` on a queue that holds the strings.
abbrev pub Peeks : World → Run Ptr → List (List ℕ) → Type 0
Peeks w run [] = run ≡ ok null (printed w (text "Queue is empty\n" ∷ []))
Peeks w run (x ∷ xs) = (p : Ptr) × (run ≡ ok p w) × (string_at w p ≡ some x)

-- `peek` returns NULL and prints a message on an empty queue; on any other it returns a pointer to
-- the oldest string that the queue holds, and changes nothing.
pub peek-Peeks :
    {w : World} {q : Queue} {gone : ℕ} (xs : List (List ℕ))
    → Rep w q gone xs
    → Peeks w (peek q w) xs
unfolding peek
peek-Peeks [] r = ground (arith, is_empty-Rep r)
peek-Peeks {w} {q} {gone} (x ∷ xs) r =
    (q.items gone, ground (arith, is_empty-Rep r, front_next r, item_at r w gone), r.held.0)

-- What the loop of `printQueue` prints for the strings `xs`.
abbrev pub listing : List (List ℕ) → List Piece
listing [] = []
listing (x ∷ xs) = str x ∷ text " " ∷ listing xs

print_items-listing :
    {w : World} {q : Queue} {gone : ℕ} {xs : List (List ℕ)} (i : ℕ) (ys : List (List ℕ))
    → IsSound w
    → Rep w q gone xs
    → i + length ys ≤ gone + length xs
    → Holds w q.items i ys
    → print_items q (length ys) (pos i) w ≡ ok tt (printed w (listing ys))
unfolding print_items ◌+ℤ◌
print_items-listing {w} i [] s r le h =
    ap (λ out. ok tt (record w { stdout = out })) (sym (append-nil w.stdout))
print_items-listing {w} {q} {gone} {xs} i (y ∷ ys) s r le (h, hs) = ground (
  arith,
  item_at r w i,
  read_string-ok w (q.items i) h,
  print_items-listing {w = printed w now} (suc i) ys (printed-IsSound now s)
      (Rep-Extends s (printed-Extends w now) r) (omega arith)
      (Holds-Extends q.items (suc i) ys s (printed-Extends w now) hs),
  printed-printed w now (listing ys),
)
  where
    now : List Piece
    now = str y ∷ text " " ∷ []

minus_self : (g n : ℕ) → pos_part (pos (g + n) -ℤ pos g) ≡ n
unfolding ◌-ℤ◌
minus_self g n = ground arith

rounds :
    {w : World} {q : Queue} {gone : ℕ} {xs : List (List ℕ)}
    → Rep w q gone xs
    → pos_part (q.rear -ℤ (q.front +ℤ pos 1)) ≡ length xs
rounds {q} {gone} {xs} r =
    ap₂ (λ a b. pos_part (a -ℤ b)) r.rear_at (front_next r) ∙ minus_self gone (length xs)

-- `printQueue` prints every message that the queue holds, oldest first, and changes nothing else.
pub print_queue-listing :
    {w : World} {q : Queue} {gone : ℕ} (x : List ℕ) (xs : List (List ℕ))
    → IsSound w
    → Rep w q gone (x ∷ xs)
    → print_queue q w
      ≡ ok tt (printed w (text "Current Queue: " ∷ listing (x ∷ xs) ++ text "\n" ∷ []))
unfolding print_queue
print_queue-listing {w} {q} {gone} x xs s r = ground (
  arith,
  is_empty-Rep r,
  front_next r,
  rounds r,
  print_items-listing gone (x ∷ xs) (printed-IsSound head s)
      (Rep-Extends s (printed-Extends w head) r) (omega arith)
      (Holds-Extends q.items gone (x ∷ xs) s (printed-Extends w head) r.held),
  printed-printed w head (listing (x ∷ xs)),
  printed-printed w (head ++ listing (x ∷ xs)) (text "\n" ∷ []),
)
  where
    head : List Piece
    head = text "Current Queue: " ∷ []
