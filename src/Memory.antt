-- ===== src/Memory.antt =====
-- The C memory that BackLibWaterRMQ.c works on: blocks of bytes from `malloc`, strings that end in
-- NUL, and the calls of <string.h> on them. A run that reads or writes where C does not allow it
-- is a fault; `exit` ends the process.
pub mod Text
pub mod Frame
pub mod Copy
use wate_rmq.Common.{
  ℕ, zero, suc, ◌+◌, ◌≤◌, Bool, List, [], ◌∷◌, ◌++◌, Option, none, some, String, ℤ, leb, ◌==◌,
  if◌then◌else◌, length, take, drop, replicate,
}

-- A `char *` into the heap: NULL, or the start of a block.
pub data Ptr : Type 0 where
  null : Ptr
  at : ℕ → Ptr

-- What one conversion of a format string prints.
pub data Piece : Type 0 where
  text : String → Piece
  str : List ℕ → Piece
  int : ℤ → Piece
  hex : ℕ → ℕ → Piece  -- at least so many digits, in capitals
  char : ℕ → Piece

-- `grants n size` tells whether the n-th call of `malloc` succeeds, `junk n` what a fresh block
-- holds: both are the environment's choice. A denied call uses up its number too.
pub record World : Type 0 where
  pub next : ℕ
  pub block : ℕ → Option (List ℕ)
  pub grants : ℕ → ℕ → Bool
  pub junk : ℕ → ℕ → ℕ
  pub stdout : List Piece
  pub stderr : List Piece

pub data Fault : Type 0 where
  null_access dangling out_of_bounds unterminated int_range : Fault

pub data Run (A : Type 0) : Type 0 where
  ok : A → World → Run A
  exited : ℤ → World → Run A
  fault : Fault → Run A

abbrev pub Cmd : Type 0 → Type 0
Cmd A = World → Run A

abbrev pub pure : {A : Type 0} → A → Cmd A
pure a w = ok a w

abbrev pub and_then : {A B : Type 0} → Run A → (A → Cmd B) → Run B
and_then (ok a w) f = f a w
and_then (exited n w) f = exited n w
and_then (fault e) f = fault e

infixl 5 ◌>>=◌ ◌>>◌
abbrev pub ◌>>=◌ : {A B : Type 0} → Cmd A → (A → Cmd B) → Cmd B
◌>>=◌ m f w = and_then (m w) f

abbrev pub ◌>>◌ : {B : Type 0} → Cmd (Unit {0}) → Cmd B → Cmd B
m >> k = m >>= λ _. k

abbrev pub crash : {A : Type 0} → Fault → Cmd A
crash e w = fault e

abbrev pub exit : {A : Type 0} → ℤ → Cmd A
exit n w = exited n w

abbrev pub print : List Piece → Cmd (Unit {0})
print ps w = ok tt (record w { stdout = w.stdout ++ ps })

abbrev pub print_error : List Piece → Cmd (Unit {0})
print_error ps w = ok tt (record w { stderr = w.stderr ++ ps })

abbrev pub update {ℓ} : {A : Type ℓ} → (ℕ → A) → ℕ → A → ℕ → A
update f i a j = if i == j then a else f j

unfoldable pub tabulate : (ℕ → ℕ) → ℕ → List ℕ
tabulate f zero = []
tabulate f (suc n) = f 0 ∷ tabulate (λ i. f (suc i)) n

-- The world after a granted `malloc(n)`, and after a denied one.
abbrev pub granted : ℕ → World → World
granted n w = record w {
  next = suc w.next;
  block = update w.block w.next (some (tabulate (w.junk w.next) n));
}

abbrev pub denied : World → World
denied w = record w { next = suc w.next }

unfoldable pub malloc : ℕ → Cmd Ptr
malloc n w = if w.grants w.next n then ok (at w.next) (granted n w) else ok null (denied w)

-- The bytes of the block at `p`.
unfoldable pub load : Ptr → Cmd (List ℕ)
load null w = fault null_access
load (at b) w = elim (w.block b) [ none ↦ fault dangling | some bytes ↦ ok bytes w ]

-- The bytes before the first NUL; `none` if there is no NUL.
abbrev pub until_nul : List ℕ → Option (List ℕ)
until_nul [] = none
until_nul (c ∷ cs) =
    if c == 0 then some [] else elim (until_nul cs) [ none ↦ none | some s ↦ some (c ∷ s) ]

-- The string that `p` points to, if it points to one.
abbrev pub string_at : World → Ptr → Option (List ℕ)
string_at w null = none
string_at w (at b) = elim (w.block b) [ none ↦ none | some bytes ↦ until_nul bytes ]

-- Overwrites the first bytes of the block at `p`.
unfoldable pub store : Ptr → List ℕ → Cmd (Unit {0})
store null new w = fault null_access
store (at b) new w = elim (w.block b) [
  | none ↦ fault dangling
  | some old ↦
      if leb (length new) (length old)
      then ok tt (record w { block = update w.block b (some (new ++ drop (length new) old)) })
      else fault out_of_bounds
]

unfoldable pub memset : Ptr → ℕ → ℕ → Cmd (Unit {0})
unfolding store
memset p value n = store p (replicate n value)

unfoldable pub memcpy : Ptr → Ptr → ℕ → Cmd (Unit {0})
unfolding load store
memcpy to from n = do
  bytes ← load from
  if leb n (length bytes) then store to (take n bytes) else crash out_of_bounds

unfoldable pub read_string : Ptr → Cmd (List ℕ)
unfolding load
read_string p = do
  bytes ← load p
  elim (until_nul bytes) [ none ↦ crash unterminated | some s ↦ pure s ]

unfoldable pub strlen : Ptr → Cmd ℕ
unfolding read_string
strlen p = do s ← read_string p; pure (length s)
