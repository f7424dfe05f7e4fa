-- ===== src/Config/Create.antt =====
-- The functions of BackLibWaterRMQ.c that create a struct of strings.
use wate_rmq.Common.{
  ℕ, ◌≡◌, refl, List, [], ◌∷◌, none, some, ℤ, inl, inr, Option-cases, ◌⊎◌, ◌≢◌, sym,
}
use wate_rmq.Memory.{Ptr, World, string_at}
use wate_rmq.Memory.Frame.{IsSound, read_string-ok}
use wate_rmq.Config.{
  Connection, Login, create_exchange, create_connection, create_login, create_exception_handling,
  Handle, SemaphoreMmap, create_semaphore_mmap,
}
use wate_rmq.Config.Strings.{Owns, OwnBlock-string_at}
use wate_rmq.Config.Makes.{refused, made, Denied, Makes, with_struct-Makes, with_string-Makes}

nothing : {w v : World} → Owns w v []
nothing = record { owned = tt }

-- `create_WateRMQ_Configuration_Exchange_private`, given three strings, makes a struct with a copy
-- of each in a block of its own, or returns NULL after a refused `malloc`.
pub create_exchange-Makes :
    {w : World} (exchange_name key queuename : Ptr) (e k q : List ℕ)
    → IsSound w
    → string_at w exchange_name ≡ some e
    → string_at w key ≡ some k
    → string_at w queuename ≡ some q
    → Makes w
        (Denied w)
        (λ c v. Owns w v ((c.queue, q) ∷ (c.binding_key, k) ∷ (c.exchange, e) ∷ []))
        (create_exchange exchange_name key queuename w)
unfolding create_exchange
create_exchange-Makes {w} exchange_name key queuename e k q s he hk hq =
    with_struct-Makes 24 _ (λ d. d) s
      λ v sv xv.
        with_string-Makes exchange_name e _ [] (λ d. d) s sv xv he nothing
          λ p1 v1 s1 x1 o1.
            with_string-Makes key k _ _ (λ d. d) s s1 x1 hk o1
              λ p2 v2 s2 x2 o2.
                with_string-Makes queuename q _ _ (λ d. d) s s2 x2 hq o2
                  λ p3 v3 s3 x3 o3. made s3 x3 refl o3

-- `create_WateRMQ_ConfigurationLogin_private`, given three strings, makes a struct with the numbers
-- and with copies of the strings, or returns NULL after a refused `malloc`; `conn` stays unset.
pub create_login-Makes :
    {w : World} (raw : Login) (v_host username password : Ptr) (h u p : List ℕ)
    (channel_max frame_max heartbeat sasl_method : ℤ)
    → IsSound w
    → string_at w v_host ≡ some h
    → string_at w username ≡ some u
    → string_at w password ≡ some p
    → Makes w
        (Denied w)
        (λ c v.
          (c.conn ≡ raw.conn)
          × (c.channel_max ≡ channel_max)
          × (c.frame_max ≡ frame_max)
          × (c.heartbeat ≡ heartbeat)
          × (c.sasl_method ≡ sasl_method)
          × Owns w v ((c.password, p) ∷ (c.username, u) ∷ (c.host, h) ∷ []))
        (create_login raw v_host channel_max frame_max heartbeat sasl_method username password w)
unfolding create_login
create_login-Makes raw v_host username password h u p cm fm hb sm s hh hu hp =
    with_struct-Makes 48 _ (λ d. d) s
      λ v sv xv.
        with_string-Makes v_host h _ [] (λ d. d) s sv xv hh nothing
          λ p1 v1 s1 x1 o1.
            with_string-Makes username u _ _ (λ d. d) s s1 x1 hu o1
              λ p2 v2 s2 x2 o2.
                with_string-Makes password p _ _ (λ d. d) s s2 x2 hp o2
                  λ p3 v3 s3 x3 o3. made s3 x3 refl (refl, refl, refl, refl, refl, o3)

-- `create_WateRMQ_ConfigurationConnection_private`, given a string, reads the socket of the fresh
-- struct: it makes a struct with that socket, which is then not NULL, with the port and a copy of
-- the string, or returns NULL because `malloc` was refused or because that socket was NULL.
pub create_connection-Makes :
    {w : World} (raw : Connection) (hostname : Ptr) (h : List ℕ) (port : ℤ)
    → IsSound w
    → string_at w hostname ≡ some h
    → Makes w
        (Denied w ⊎ (raw.socket ≡ none))
        (λ c v.
          (c.socket ≡ raw.socket)
          × (raw.socket ≢ none)
          × (c.port ≡ port)
          × Owns w v ((c.hostname, h) ∷ []))
        (create_connection raw hostname port w)
unfolding create_connection
create_connection-Makes raw hostname h port s hh = with_struct-Makes 24 _ inl s λ v sv xv.
    with_string-Makes hostname h _ [] inl s sv xv hh nothing λ p1 v1 s1 x1 o1.
      elim (Option-cases raw.socket) [
        | inl unset ↦ refused (inr unset) s1 x1 (rw unset refl)
        | inr (socket, set) ↦ made s1 x1 (rw set refl) (sym set, (λ e. cc), refl, o1)
      ]

-- `create_WateRMQ_ExceptionHandling_private`, given eight strings, makes a struct with a copy of
-- each in a block of its own, or returns NULL after a refused `malloc`.
pub create_exception_handling-Makes :
    {w : World} (a b c d e f g h : Ptr) (sa sb sc sd se sf sg sh : List ℕ)
    → IsSound w
    → string_at w a ≡ some sa
    → string_at w b ≡ some sb
    → string_at w c ≡ some sc
    → string_at w d ≡ some sd
    → string_at w e ≡ some se
    → string_at w f ≡ some sf
    → string_at w g ≡ some sg
    → string_at w h ≡ some sh
    → Makes w
        (Denied w)
        (λ x v. Owns w v (
          (x.ending_connection_message, sh)
          ∷ (x.closing_connection_message, sg)
          ∷ (x.closing_channel_message, sf)
          ∷ (x.consuming_message, se)
          ∷ (x.binding_message, sd)
          ∷ (x.queue_message, sc)
          ∷ (x.opening_channel_message, sb)
          ∷ (x.login_message, sa)
          ∷ []))
        (create_exception_handling a b c d e f g h w)
unfolding create_exception_handling
create_exception_handling-Makes a b c d e f g h sa sb sc sd se sf sg sh s ha hb hc hd he hf hg hh =
    with_struct-Makes 64 _ (λ d. d) s
      λ v sv xv.
        with_string-Makes a sa _ [] (λ d. d) s sv xv ha nothing
          λ p1 v1 s1 x1 o1.
            with_string-Makes b sb _ _ (λ d. d) s s1 x1 hb o1
              λ p2 v2 s2 x2 o2.
                with_string-Makes c sc _ _ (λ d. d) s s2 x2 hc o2
                  λ p3 v3 s3 x3 o3.
                    with_string-Makes d sd _ _ (λ d. d) s s3 x3 hd o3
                      λ p4 v4 s4 x4 o4.
                        with_string-Makes e se _ _ (λ d. d) s s4 x4 he o4
                          λ p5 v5 s5 x5 o5.
                            with_string-Makes f sf _ _ (λ d. d) s s5 x5 hf o5
                              λ p6 v6 s6 x6 o6.
                                with_string-Makes g sg _ _ (λ d. d) s s6 x6 hg o6
                                  λ p7 v7 s7 x7 o7.
                                    with_string-Makes h sh _ _ (λ d. d) s s7 x7 hh o7
                                      λ p8 v8 s8 x8 o8. made s8 x8 refl o8

-- `create_WateRMQ_SemaphoreMmap_private`, given a string, makes a struct with the semaphore that
-- `sem_open` has under that name and with a copy of it, or returns NULL after a refused `malloc`;
-- the other members stay unset, though there are parameters for them.
pub create_semaphore_mmap-Makes :
    (sem_open : List ℕ → Handle) {w : World} (raw : SemaphoreMmap) (sem_name : Ptr) (n : List ℕ)
    → IsSound w
    → string_at w sem_name ≡ some n
    → Makes w
        (Denied w)
        (λ c v.
          (c.semaphore_self ≡ sem_open n)
          × (c.oflag ≡ raw.oflag)
          × (c.mode ≡ raw.mode)
          × (c.value ≡ raw.value)
          × Owns w v ((c.sem_name, n) ∷ []))
        (create_semaphore_mmap sem_open raw sem_name w)
unfolding create_semaphore_mmap
create_semaphore_mmap-Makes sem_open raw sem_name n s h =
    with_struct-Makes 32 _ (λ d. d) s
      λ v sv xv.
        with_string-Makes sem_name n _ [] (λ d. d) s sv xv h nothing
          λ p1 v1 s1 x1 o1.
            made s1 x1 (rw (read_string-ok v1 p1 (OwnBlock-string_at o1.owned.0)) refl)
              (refl, refl, refl, refl, o1)
