-- ===== src/Unbind/Tests.antt =====
-- amqp_unbind with a library that answers well, and with one that refuses the login.
use wate_rmq.Common.{ℕ, ◌≡◌, refl, List, [], ◌∷◌, some, pos, arith}
use wate_rmq.Memory.{text}
use wate_rmq.Argv.{codes}
use wate_rmq.Session.{Log, ok}
use wate_rmq.Session.Script.{Follows, complained, first_bad}
use wate_rmq.Session.Checks.{connect_script}
use wate_rmq.Session.Tests.{no_login}
use wate_rmq.Unbind.{unbind_main}
use wate_rmq.Unbind.Script.{unbind_script, unbind_main-Follows}

abbrev s : List ℕ
s = codes "s"

unbind_main-Follows_example :
    Follows no_login
      (unbind_script s (pos 5672) s s s)
      (pos 0)
      (unbind_main (λ t. pos 5672) no_login (s ∷ s ∷ s ∷ s ∷ s ∷ s ∷ []))
    × ((l : Log)
        → unbind_main (λ t. pos 5672) no_login (s ∷ s ∷ []) l
          ≡ ok
              (pos 1)
              (complained (text "Usage: amqp_unbind host port exchange bindingkey queue\n" ∷ []) l))
unbind_main-Follows_example =
    unbind_main-Follows (λ t. pos 5672) no_login s s s s s s [] (s ∷ s ∷ []) (omega arith)

-- The script stops at the login, its fourth call.
stops_at_login :
    first_bad no_login [] (unbind_script s (pos 5672) s s s) ≡ some (connect_script s (pos 5672))
stops_at_login = refl
