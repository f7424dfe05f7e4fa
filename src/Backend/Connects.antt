-- ===== src/Backend/Connects.antt =====
-- What `configurationConnection_WateRMQ_public` of BackLibWaterRMQ.c comes to.
use wate_rmq.Common.{
  ℕ, ◌≡◌, ◌≤◌, refl, sym, ap, subst, ◌∙◌, arith, true, false, List, [], ◌∷◌, ◌++◌, Option,
  Option-cases, none, some, String, ℤ, pos, eqb_ℤ, length, inl, inr, Bool-cases,
}
use wate_rmq.Memory.{Ptr, at, World, text, Piece, string_at, read_string}
use wate_rmq.Memory.Text.{NoNul, until_nul-append}
use wate_rmq.Memory.Frame.{read_string-ok}
use wate_rmq.Memory
use wate_rmq.Machine.{Ending, ok, exited, pure, ◌>>=◌, ◌>>◌}
use wate_rmq.Config.{Handle, WateRmq, Connection, Login}
use wate_rmq.Configure.{member, overwrite}
use wate_rmq.Configure.Overwrite.{laid, rewritten, overwrite-Ends, NoNul-laid}
use wate_rmq.Session.{Call, new_connection, tcp_socket_new, socket_open, Library, die}
use wate_rmq.Session.Connect.{need_handle}
use wate_rmq.Backend.{State, Back, lift, in_session, configure_connection}
use wate_rmq.Backend.Calls.{opened, make_socket, open_tcp}

-- The calls up to the connection, the socket, and its opening.
abbrev pub at_connection : State → List Call
at_connection s = s.calls ++ new_connection ∷ []

abbrev pub at_socket : State → List Call
at_socket s = at_connection s ++ tcp_socket_new ∷ []

abbrev pub at_opening : List ℕ → ℤ → State → List Call
at_opening host port s = at_socket s ++ socket_open host port ∷ []

-- The state with other memory and more calls, and one that has complained besides.
abbrev pub reached : World → List Call → State → State
reached w calls s = record s { world = w; calls = calls }

abbrev pub complained : String → State → State
complained context s = record s {
  world = record s.world { stderr = s.world.stderr ++ text context ∷ text "\n" ∷ [] };
}

-- `host` is the host name that the struct holds after the copy.
pub data Connects (lib : Library) (i : WateRmq) (c : Connection) (login : Login) (host : List ℕ)
    (port : ℤ) (w : World) (s : State) : Ending State WateRmq → Type 0 where
  no_socket :
      lib.handle (at_socket s) ≡ none
      → Connects lib i c login host port w s
          (exited (pos 1) (complained "creating TCP socket" (reached w (at_socket s) s)))
  refused :
      eqb_ℤ (lib.status (at_opening host port s)) (pos 0) ≡ false
      → Connects lib i c login host port w s
          (exited (pos 1) (complained "opening TCP socket" (reached w (at_opening host port s) s)))
  connected :
      {socket : ℕ}
      → lib.handle (at_socket s) ≡ some socket
      → eqb_ℤ (lib.status (at_opening host port s)) (pos 0) ≡ true
      → Connects lib i c login host port w s (
          ok
            (record i {
              conf_conn = some (record c { socket = some socket; port = port });
              conf_login = some (record login { conn = lib.handle (at_connection s) });
            })
            (reached w (at_opening host port s) s))

pub member-some : {A : Type 0} (o : Option A) {a : A} → o ≡ some a → member o ≡ Memory.pure a
unfolding member
member-some o e = ap member e

module _ (lib : Library) (i : WateRmq) (c : Connection) (login : Login) (hostname : Ptr) (port : ℤ)
    (b : ℕ) (new old : List ℕ) (s : State) (has_conn : i.conf_conn ≡ some c)
    (has_login : i.conf_login ≡ some login) (own : c.hostname ≡ at b)
    (live : s.world.block b ≡ some (old ++ 0 ∷ [])) (clean : NoNul old)
    (points : string_at s.world hostname ≡ some new) (clean_new : NoNul new)
    (fits : length new ≤ length old) where
  abbrev after : World
  after = rewritten s.world b (laid new old ++ 0 ∷ [])

  host_read : string_at after (at b) ≡ some (laid new old)
  host_read =
      ground (arith, until_nul-append (laid new old) [] (NoNul-laid new old clean_new clean))

  host_read' : read_string c.hostname after ≡ Memory.ok (laid new old) after
  host_read' = read_string-ok after c.hostname (ap (string_at after) own ∙ host_read)

  overwritten : overwrite c.hostname hostname s.world ≡ Memory.ok tt after
  overwritten =
      ap (λ p. overwrite p hostname s.world) own
      ∙ (overwrite-Ends s.world b hostname old new live points).0 fits

  -- What is left when the name has been copied.
  abbrev opens : Handle → Handle → Back WateRmq
  opens conn socket = lift (read_string c.hostname) >>= λ host.
      in_session (open_tcp lib host port)
      >> pure (record i {
        conf_conn = some (record c { socket = socket; port = port });
        conf_login = some (record login { conn = conn });
      })

  copied :
      configure_connection lib i hostname port s
      ≡ (in_session (make_socket lib) >>= λ (conn, socket). opens conn socket)
          (record s { world = after })
  unfolding configure_connection
  copied =
      rw (member-some i.conf_conn has_conn, overwritten, member-some i.conf_login has_login) refl

  opens-Connects :
      (socket : ℕ)
      → lib.handle (at_socket s) ≡ some socket
      → Connects lib i c login
          (laid new old)
          port
          after
          s
          (opens (lib.handle (at_connection s)) (some socket) (reached after (at_socket s) s))
  unfolding open_tcp opened die
  opens-Connects socket e =
      elim (Bool-cases (eqb_ℤ (lib.status (at_opening (laid new old) port s)) (pos 0))) [
        | inl fine ↦ rw (host_read', fine) (connected e fine)
        | inr bad ↦ rw (host_read', bad) (refused bad)
      ]

  tail-Connects : Connects lib i c login (laid new old) port after s (
      (in_session (make_socket lib) >>= λ (conn, socket). opens conn socket)
        (record s { world = after }))
  unfolding make_socket need_handle die
  tail-Connects = elim (Option-cases (lib.handle (at_socket s))) [
    | inl e ↦ rw e (no_socket e)
    | inr (socket, e) ↦ rw e (opens-Connects socket e)
  ]

  -- On an instance whose host name is a string in a block, with a new one that is not longer, the
  -- program asks for a connection and a socket and opens it with the host name that the copy has
  -- left, which ends as the old one did; it exits with 1 and a message if there is no socket or it is
  -- not opened, and else the instance has both handles and the port.
  pub configure_connection-Connects :
      Connects lib i c login
        (laid new old)
        port
        after
        s
        (configure_connection lib i hostname port s)
  configure_connection-Connects =
      subst (Connects lib i c login (laid new old) port after s) (sym copied) tail-Connects
