-- ===== src/Config/Tests.antt =====
-- Structs that are created from strings in memory.
use wate_rmq.Common.{
  ℕ, ◌≡◌, ◌≢◌, ◌⊎◌, refl, true, false, List, [], ◌∷◌, none, some, pos, arith, ◌==◌, if◌then◌else◌,
  length,
}
use wate_rmq.Memory.{null, at, World}
use wate_rmq.Memory.Frame.{IsSound}
use wate_rmq.Config.{
  Connection, Login, create_exchange, create_connection, create_login, create_exception_handling,
  SemaphoreMmap, create_semaphore_mmap,
}
use wate_rmq.Config.Strings.{Owns}
use wate_rmq.Config.Makes.{Denied, Makes}
use wate_rmq.Config.Create.{
  create_exchange-Makes, create_login-Makes, create_connection-Makes,
  create_exception_handling-Makes, create_semaphore_mmap-Makes,
}

abbrev guest : List ℕ
guest = b'g' ∷ b'u' ∷ b'e' ∷ b's' ∷ b't' ∷ []

abbrev slash : List ℕ
slash = b'/' ∷ []

-- Two strings in memory; the sixth call of `malloc` is refused.
abbrev two_strings : World
two_strings = record {
  next = 2;
  block = λ b.
      if b == 0
      then some (b'g' ∷ b'u' ∷ b'e' ∷ b's' ∷ b't' ∷ 0 ∷ [])
      else if b == 1
      then some (b'/' ∷ 0 ∷ 9 ∷ [])
      else none;
  grants = λ n size. if n == 7 then false else true;
  junk = λ n i. 255;
  stdout = [];
  stderr = [];
}

two_strings-IsSound : IsSound two_strings
two_strings-IsSound = record { unused = λ b h. ground arith }

abbrev raw_login : Login
raw_login = record {
  conn = none;
  host = null;
  channel_max = pos 9;
  frame_max = pos 9;
  heartbeat = pos 9;
  sasl_method = pos 9;
  username = null;
  password = null;
}

abbrev raw_connection : Connection
raw_connection = record { socket = some 5; hostname = null; port = pos 9 }

create_exchange-Makes_run :
    Makes two_strings
      (Denied two_strings)
      (λ c v.
        Owns two_strings v ((c.queue, slash) ∷ (c.binding_key, guest) ∷ (c.exchange, guest) ∷ []))
      (create_exchange (at 0) (at 0) (at 1) two_strings)
create_exchange-Makes_run =
    create_exchange-Makes (at 0) (at 0) (at 1) guest guest slash two_strings-IsSound refl refl refl

create_login-Makes_run :
    Makes two_strings
      (Denied two_strings)
      (λ c v.
        (c.conn ≡ none)
        × (c.channel_max ≡ pos 0)
        × (c.frame_max ≡ pos 131072)
        × (c.heartbeat ≡ pos 0)
        × (c.sasl_method ≡ pos 0)
        × Owns two_strings v ((c.password, guest) ∷ (c.username, guest) ∷ (c.host, slash) ∷ []))
      (create_login raw_login (at 1) (pos 0) (pos 131072) (pos 0) (pos 0) (at 0) (at 0) two_strings)
create_login-Makes_run =
    create_login-Makes raw_login (at 1) (at 0) (at 0) slash guest guest (pos 0) (pos 131072) (pos 0)
      (pos 0) two_strings-IsSound refl refl refl

create_connection-Makes_run :
    Makes two_strings
      (Denied two_strings ⊎ (raw_connection.socket ≡ none))
      (λ c v.
        (c.socket ≡ raw_connection.socket)
        × (raw_connection.socket ≢ none)
        × (c.port ≡ pos 5672)
        × Owns two_strings v ((c.hostname, guest) ∷ []))
      (create_connection raw_connection (at 0) (pos 5672) two_strings)
create_connection-Makes_run =
    create_connection-Makes raw_connection (at 0) guest (pos 5672) two_strings-IsSound refl

create_exception_handling-Makes_run :
    Makes two_strings
      (Denied two_strings)
      (λ x v. Owns two_strings v (
        (x.ending_connection_message, guest)
        ∷ (x.closing_connection_message, guest)
        ∷ (x.closing_channel_message, guest)
        ∷ (x.consuming_message, guest)
        ∷ (x.binding_message, guest)
        ∷ (x.queue_message, guest)
        ∷ (x.opening_channel_message, guest)
        ∷ (x.login_message, slash)
        ∷ []))
      (create_exception_handling
        (at 1)
        (at 0)
        (at 0)
        (at 0)
        (at 0)
        (at 0)
        (at 0)
        (at 0)
        two_strings)
create_exception_handling-Makes_run =
    create_exception_handling-Makes (at 1) (at 0) (at 0) (at 0) (at 0) (at 0) (at 0) (at 0) slash
      guest guest guest guest guest guest guest two_strings-IsSound refl refl refl refl refl refl
      refl refl

abbrev raw_semaphore : SemaphoreMmap
raw_semaphore = record {
  sem_name = null;
  oflag = pos 3;
  mode = 4;
  value = 5;
  semaphore_self = none;
}

create_semaphore_mmap-Makes_run :
    Makes two_strings
      (Denied two_strings)
      (λ c v.
        (c.semaphore_self ≡ some 5)
        × (c.oflag ≡ pos 3)
        × (c.mode ≡ 4)
        × (c.value ≡ 5)
        × Owns two_strings v ((c.sem_name, guest) ∷ []))
      (create_semaphore_mmap (λ s. some (length s)) raw_semaphore (at 0) two_strings)
create_semaphore_mmap-Makes_run =
    create_semaphore_mmap-Makes (λ s. some (length s)) raw_semaphore (at 0) guest
      two_strings-IsSound refl
