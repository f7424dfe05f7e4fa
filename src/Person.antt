-- ===== src/Person.antt =====
-- The program main.c beside the parts of WateRMQ, a first trial of mmap: a `person` in a mapped file.
-- The conversion of the mapping to `person` in the source is taken to be one to `person *`.
pub mod Runs
mod Tests
use wate_rmq.Common.{
  ℕ, zero, suc, ◌+◌, ◌-◌, Bool, true, false, List, [], ◌∷◌, ◌++◌, Option, none, some, ℤ, pos,
  length, take, drop, replicate, leb, if◌then◌else◌,
}
use wate_rmq.Memory.{Piece, text, str, int, dangling, out_of_bounds, unterminated, until_nul}
use wate_rmq.Machine.{Ending, ok, fault, pure, ◌>>=◌, ◌>>◌, crash}
use wate_rmq.Argv.{codes}

-- The struct, with the 128 bytes of its name.
pub record Person : Type 0 where
  pub age : ℤ
  pub name : List ℕ

abbrev pub sizeof_person : ℕ
sizeof_person = 132

-- The bytes of the file, if it was opened, and the output.
pub record State : Type 0 where
  pub file : Option (List ℕ)
  pub stdout : List Piece

-- `raw_size` is what `st` holds when `fstat` fails; `read` makes the struct of the bytes of a file.
pub record System : Type 0 where
  pub raw_size : ℕ
  pub read : List ℕ → Person

abbrev pub size_of : System → Option (List ℕ) → ℕ
size_of sys none = sys.raw_size
size_of sys (some bytes) = length bytes

-- `ftruncate`: cut off, or filled up with zeros.
abbrev pub resized : ℕ → List ℕ → List ℕ
resized n bytes = take n bytes ++ replicate (n - length bytes) 0

unfoldable pub ftruncate : ℕ → State → Ending State (Unit {0})
ftruncate n s = ok tt (record s { file = shorten s.file })
  where
    shorten : Option (List ℕ) → Option (List ℕ)
    shorten none = none
    shorten (some bytes) = some (resized n bytes)

-- A private mapping of so many bytes: none if there is no file, or of no bytes.
unfoldable pub mmap : System → ℕ → State → Ending State (Option Person)
mmap sys zero s = ok none s
mmap sys (suc n) s = ok (mapped s.file) s
  where
    mapped : Option (List ℕ) → Option Person
    mapped none = none
    mapped (some bytes) = some (sys.read bytes)

-- The use of a pointer that `mmap` has given.
abbrev pub pointed : Option Person → State → Ending State Person
pointed none = crash dangling
pointed (some p) = pure p

-- `strcpy(p[0].name, text)` into 128 bytes.
unfoldable pub set_name : List ℕ → Person → State → Ending State Person
set_name new p =
    if leb (length new + 1) 128
    then pure (record p { name = new ++ 0 ∷ drop (length new + 1) p.name })
    else crash out_of_bounds

-- `printf("%s %d\n", p->name, p->age)`
abbrev pub print_text : Option (List ℕ) → ℤ → State → Ending State (Unit {0})
print_text none age s = fault unterminated s
print_text (some name) age s =
    ok tt (record s { stdout = s.stdout ++ str name ∷ text " " ∷ int age ∷ text "\n" ∷ [] })

unfoldable pub print_person : Person → State → Ending State (Unit {0})
print_person p = print_text (until_nul p.name) p.age

-- The branch for a file that is taken to be new; `msync` of a private mapping leaves the file alone.
unfoldable pub write_person : System → State → Ending State Person
write_person sys =
    ftruncate sizeof_person
    >> (mmap sys sizeof_person >>= λ m.
        pointed m >>= λ p. set_name (codes "Hello") p >>= λ q. pure (record q { age = pos 10 }))

-- The branch for a file that is taken to have data.
unfoldable pub read_person : System → State → Ending State Person
read_person sys s = (mmap sys (size_of sys s.file) >>= λ m. pointed m) s

-- `if (st.st_size != 0)`
abbrev pub branch : System → ℕ → State → Ending State Person
branch sys zero = read_person sys
branch sys (suc n) = write_person sys

unfoldable pub person_main : System → State → Ending State ℤ
person_main sys s = (branch sys (size_of sys s.file) >>= λ p. print_person p >> pure (pos 0)) s
