-- ===== src/Configure/Tests.antt =====
-- Strings that are overwritten, and the instance that the program makes.
use wate_rmq.Common.{
  ℕ, ◌+◌, ◌≡◌, ◌≤◌, ◌<◌, refl, true, false, List, [], ◌∷◌, ◌++◌, none, some, pos, negsuc, arith,
  ◌==◌, ltb, if◌then◌else◌,
}
use wate_rmq.Memory.{
  Ptr, null, at, World, malloc, ok, exited, fault, out_of_bounds, null_access, string_at,
}
use wate_rmq.Memory.Frame.{IsSound, Extends}
use wate_rmq.Queue.{create_consuming_queue}
use wate_rmq.Config.{
  Exchange, ExceptionHandling, WateRmq, Fresh, with_struct, create_instance, create_exchange,
  create_connection, create_login, create_exception_handling, create_semaphore_mmap, init_water_rmq,
}
use wate_rmq.Config.Strings.{OwnBlock}
use wate_rmq.Configure.{overwrite, configure_exchange, configure_exception_message}
use wate_rmq.Configure.Overwrite.{laid, rewritten, overwrite-Ends}
use wate_rmq.Configure.Jobs.{Ready, after}
use wate_rmq.Configure.Lays.{
  job, Lays, Messages, message_jobs, configure_exchange-Lays, configure_exception_message-Lays,
}
use wate_rmq.Configure.Init.{IsEmpty, init_water_rmq-Ends}

abbrev pub hi : List ℕ
hi = b'h' ∷ b'i' ∷ []

abbrev pub old : List ℕ
old = b'o' ∷ b'l' ∷ b'd' ∷ []

-- One string in memory.
abbrev pub first : World
first = record {
  next = 1;
  block = λ b. if b == 0 then some (b'h' ∷ b'i' ∷ 0 ∷ []) else none;
  grants = λ n size. true;
  junk = λ n i. 255;
  stdout = [];
  stderr = [];
}

-- Eight more.
abbrev pub second : World
second = record first {
  next = 9;
  block = λ b.
      if b == 0
      then some (b'h' ∷ b'i' ∷ 0 ∷ [])
      else if ltb b 9
      then some (b'o' ∷ b'l' ∷ b'd' ∷ 0 ∷ [])
      else none;
}

pub first-IsSound : IsSound first
first-IsSound = record { unused = λ b h. ground arith }

pub second-Extends : Extends first second
second-Extends = record { later = omega arith; same = λ b h. ground arith; granting = refl }

abbrev exchange : Exchange
exchange = record { exchange = at 1; binding_key = at 2; queue = at 3 }

abbrev messages : ExceptionHandling
messages = record {
  login_message = at 1;
  opening_channel_message = at 2;
  queue_message = at 3;
  binding_message = at 4;
  consuming_message = at 5;
  closing_channel_message = at 6;
  closing_connection_message = at 7;
  ending_connection_message = at 8;
}

abbrev sources : ExceptionHandling
sources = record {
  login_message = at 0;
  opening_channel_message = at 0;
  queue_message = at 0;
  binding_message = at 0;
  consuming_message = at 0;
  closing_channel_message = at 0;
  closing_connection_message = at 0;
  ending_connection_message = at 0;
}

abbrev all_texts : List ℕ → Messages
all_texts s = record {
  login_message = s;
  opening_channel_message = s;
  queue_message = s;
  binding_message = s;
  consuming_message = s;
  closing_channel_message = s;
  closing_connection_message = s;
  ending_connection_message = s;
}

abbrev instance_ : WateRmq
instance_ = record {
  conf_exchange = some exchange;
  conf_conn = none;
  conf_login = none;
  except = some messages;
  consuming_queue = none;
  qmmap = none;
  semap = none;
}

abbrev pub own :
    (b above : ℕ)
    → 1 ≤ b
    → b < above
    → second.block b ≡ some (old ++ 0 ∷ [])
    → OwnBlock second 1 above (at b) old
own b above low high live = record {
  number = b;
  address = refl;
  low = low;
  high = high;
  live = live;
  clean = ((λ e. omega arith), ((λ e. omega arith), ((λ e. omega arith), tt)));
}

-- "hi" over "old": "hid".
overwrite-Ends_example :
    (2 ≤ 3 → overwrite (at 1) (at 0) second ≡ ok tt (rewritten second 1 (laid hi old ++ 0 ∷ [])))
    × (2 ≡ 3 + 1
        → (overwrite (at 1) (at 0) second ≡ ok tt (rewritten second 1 hi))
          × (string_at (rewritten second 1 hi) (at 1) ≡ none))
    × (3 + 1 < 2 → overwrite (at 1) (at 0) second ≡ fault out_of_bounds)
overwrite-Ends_example = overwrite-Ends second 1 (at 0) old hi refl refl

hi_over_old : laid hi old ≡ b'h' ∷ b'i' ∷ b'd' ∷ []
hi_over_old = refl

configure_exchange-Lays_run :
    Lays first
      ((at 3, laid hi old) ∷ (at 2, laid hi old) ∷ (at 1, laid hi old) ∷ [])
      (configure_exchange instance_ (at 0) (at 0) (at 0) second)
configure_exchange-Lays_run =
    configure_exchange-Lays instance_ exchange (at 0) (at 0) (at 0) old old old hi hi hi
      first-IsSound second-Extends refl
      (record {
        owned = (
          own 3 9 (omega arith) (omega arith) refl,
          (
            own 2 3 (omega arith) (omega arith) refl,
            (own 1 2 (omega arith) (omega arith) refl, tt),
          ),
        );
      })
      refl refl refl (omega arith) (omega arith) (omega arith)

short : {b : ℕ} → Ready first (job (at b) (at 0) old hi)
short = record { points = refl; fits = omega arith }

configure_exception_message-Lays_example :
    Lays first (after (message_jobs messages sources (all_texts old) (all_texts hi))) (
      configure_exception_message instance_
        (at 0)
        (at 0)
        (at 0)
        (at 0)
        (at 0)
        (at 0)
        (at 0)
        (at 0)
        second)
configure_exception_message-Lays_example =
    configure_exception_message-Lays instance_ messages sources (all_texts old) (all_texts hi)
      first-IsSound second-Extends refl
      (record {
        owned = (
          own 8 9 (omega arith) (omega arith) refl,
          (
            own 7 8 (omega arith) (omega arith) refl,
            (
              own 6 7 (omega arith) (omega arith) refl,
              (
                own 5 6 (omega arith) (omega arith) refl,
                (
                  own 4 5 (omega arith) (omega arith) refl,
                  (
                    own 3 4 (omega arith) (omega arith) refl,
                    (
                      own 2 3 (omega arith) (omega arith) refl,
                      (own 1 2 (omega arith) (omega arith) refl, tt),
                    ),
                  ),
                ),
              ),
            ),
          ),
        );
      })
      (short, (short, (short, (short, (short, (short, (short, (short, tt))))))))

abbrev raw : Fresh
raw = record {
  connection = record { socket = none; hostname = null; port = pos 0 };
  login = record {
    conn = none;
    host = null;
    channel_max = pos 0;
    frame_max = pos 0;
    heartbeat = pos 0;
    sasl_method = pos 0;
    username = null;
    password = null;
  };
  queue = record { items = λ i. null; front = pos 0; rear = pos 0 };
  semaphore = record { sem_name = null; oflag = pos 0; mode = 0; value = 0; semaphore_self = none };
}

init_water_rmq-Ends_example :
    (first.grants 1 56 ≡ false
      → (v : World) × (init_water_rmq (λ s. none) raw null first ≡ exited (negsuc 0) v))
    × (first.grants 1 56 ≡ true
        → first.grants 2 24 ≡ true
        → init_water_rmq (λ s. none) raw null first ≡ fault null_access)
    × ((i : WateRmq) (v : World)
        → init_water_rmq (λ s. none) raw null first ≡ ok i v
        → ((u : World) (a b c : Ptr) → configure_exchange i a b c u ≡ fault null_access)
          × ((u : World) (a b c d e f g h : Ptr)
              → configure_exception_message i a b c d e f g h u ≡ fault null_access)
          × IsEmpty i)
init_water_rmq-Ends_example = init_water_rmq-Ends (λ s. none) raw null first

-- Memory for the instance and for nothing else: an instance is returned.
abbrev poor : World
poor = record first { grants = λ n size. size == 56 }

poor_instance : (i : WateRmq) × (v : World) × (init_water_rmq (λ s. none) raw null poor ≡ ok i v)
unfolding init_water_rmq create_instance create_exchange create_connection create_login
    create_exception_handling create_semaphore_mmap create_consuming_queue with_struct malloc
poor_instance = (_, _, refl)
