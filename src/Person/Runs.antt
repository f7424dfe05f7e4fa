-- ===== src/Person/Runs.antt =====
-- What main.c does with its file.
use wate_rmq.Common.{ℕ, ◌≡◌, refl, List, [], ◌∷◌, ◌++◌, some, pos}
use wate_rmq.Memory.{str, text, int, dangling}
use wate_rmq.Machine.{ok, fault}
use wate_rmq.Argv.{codes}
use wate_rmq.Person.{
  State, System, resized, ftruncate, mmap, set_name, print_person, write_person, read_person,
  person_main,
}

-- An empty file, such as a new one, is a fault: it is taken to have data, and no bytes cannot be
-- mapped. A file with data is taken to be new: its size is set, "Hello 10" is printed, and what is
-- written is lost, since the mapping is private.
pub person_main-Runs :
    (sys : System) (s : State)
    → (s.file ≡ some [] → person_main sys s ≡ fault dangling s)
      × ((c : ℕ) (cs : List ℕ)
          → s.file ≡ some (c ∷ cs)
          → person_main sys s
            ≡ ok (pos 0) (record s {
              file = some (resized 132 (c ∷ cs));
              stdout = s.stdout ++ str (codes "Hello") ∷ text " " ∷ int (pos 10) ∷ text "\n" ∷ [];
            }))
unfolding person_main write_person read_person ftruncate mmap set_name print_person
person_main-Runs sys s = (λ e. rw e refl, λ c cs e. rw e refl)
