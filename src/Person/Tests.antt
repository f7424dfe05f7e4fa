-- ===== src/Person/Tests.antt =====
-- main.c on a file of three bytes.
use wate_rmq.Common.{[], ◌∷◌, some, pos, ◌≡◌, refl}
use wate_rmq.Memory.{str, text, int}
use wate_rmq.Machine.{ok}
use wate_rmq.Argv.{codes}
use wate_rmq.Person.{State, System, resized, person_main}
use wate_rmq.Person.Runs.{person_main-Runs}

abbrev system : System
system = record { raw_size = 0; read = λ bytes. record { age = pos 0; name = bytes } }

abbrev state : State
state = record { file = some (1 ∷ 2 ∷ 3 ∷ []); stdout = [] }

three_bytes :
    person_main system state
    ≡ ok (pos 0) (record {
      file = some (resized 132 (1 ∷ 2 ∷ 3 ∷ []));
      stdout = str (codes "Hello") ∷ text " " ∷ int (pos 10) ∷ text "\n" ∷ [];
    })
three_bytes = (person_main-Runs system state).1 1 (2 ∷ 3 ∷ []) refl
