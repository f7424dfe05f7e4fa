-- ===== src/Lib.antt =====
-- The back end of WateRMQ, a RabbitMQ consumer that hands its messages to another process through a
-- queue, and its front end, which announces them: the C programs in BackendC/librabbitmq/watermq/ and
-- beside it, and the C++ program in FrontendCPP/.
--
-- The program's parts and the files that model them:
--   Memory: the memory of C that BackLibWaterRMQ.c works on. Strings are bytes in blocks that `malloc`
--     gives; which calls of `malloc` succeed and what fresh memory holds is the environment's choice.
--     A read or write that C does not allow is a fault, and a result of its own.
--   Queue: `Queue` and its functions (BackLibWaterRMQ.c), the array that holds the messages, and the
--     constructor of the consuming queue.
--   Config: the configuration structs of an instance and the functions that create them; Configure:
--     the functions that overwrite their strings, and `_init_WateRMQ_public` (BackLibWaterRMQ.c).
--   Inbox: `addMessageInQueue_private` and `getCurrentMessage_public` (BackLibWaterRMQ.c).
--   Argv: `getOptionObligatoireHaHaByOpt`, `Informations` and `processArgv` (BackLibWaterRMQ.c).
--   SharedBuffer: the producer and the consumer of semaphore_test.c, as steps of two processes, and
--     how they open their semaphores and their memory (Opening).
--   Session: the calls of the AMQP library as a log, `die`, `die_on_error` and `die_on_amqp_error`
--     (utils.c), and what the programs do alike; Unbind: amqp_unbind.c; Consumer: amqp_consumerX.c;
--     Ssl: amqp_ssl_connect.c.
--   Start: `configurationRabbitMQ_private`, and `start_consuming_public` up to the bridge
--     (BackLibWaterRMQ.c).
--   Dump: `dump_row`, `rows_eq` and `amqp_dump` (utils.c).
--   Backend: what BackLibWaterRMQ.c does with memory and the library together: the connection and the
--     login of an instance, `retRequestHandling_private` (Backend.Calls), `sendMessage` and the loop over
--     messages; the bridge, the start of the consumption and `main` (Backend.Main).
--   Clock: `now_microseconds` and `microsleep` of unix/platform_utils.c and win32/platform_utils.c.
--   Person: main.c, a first trial of mmap.
--   Machine: how a run ends, for the front end and the back end.
--   Process: the process of the front end, with the `Queue` of WateRMQ.hpp and what it asks of the
--     system; Semaphores: SemaphoreCPP.cpp; Front: the class of WateRMQ.cpp, with the reading of
--     messages, its opening (Front.Opening) and its settings (Front.Command); Listener: the program of
--     WateRMQCPP.cpp.
--   Common: the names that all share, Boolean tests, lists, and the `int` of C as ℤ.
--
-- How they interact: the instance of Config holds a queue of Queue; Argv reads the texts that
-- Configure and Backend lay over the strings of the instance; Backend.Main composes Argv, Config,
-- Configure, Start and Backend to the back end's program. The programs of Unbind, Consumer and Ssl
-- share the steps of Session.Connect, and end through the exits of Session. Listener reads
-- messages through Front, which waits on the semaphores of Semaphores. The two programs meet only
-- in the memory that they map: Front finds there what the system says (Process.System), and the
-- back end's own queue, whose layout is another, is Queue. A function of C that updates a struct
-- through a pointer takes and gives the struct, for its one owner; memory, output and calls are
-- passed along as a state.
--
-- Fuel and bounds: `processArgv`, `run`, the loop of the front end and that of the back end over
-- messages run on fuel, the number of rounds, and say so when it is used up (`out_of_fuel`,
-- `running`); for `processArgv` as many rounds as arguments and one more are enough when every
-- option stands before the place it jumps to. The other loops are by recursion on what they read.
-- An `int` that overflows is a fault, a `uint64_t` wraps around; `sizeof` is that of a 64-bit
-- machine.
--
-- Parameters: the operating system of the front end (Process.System), its JSON library
-- (Listener.Json), the AMQP library, whose answers may depend on all calls made before
-- (Session.Library), where it puts the body of a message and how the bytes of a block read as a
-- `Queue` (Backend.Placing), the file of the bridge and what `main` of the back end finds in memory
-- (Backend.Main.Files, Backend.Main.Setting), `atoi`, `sem_open`, the clock, the name `qu` that
-- BackLibWaterRMQ.c does not declare, and the floating-point quotient of a summary.
--
-- Not modelled: BackendC/librabbitmq/ except watermq/, a copy of rabbitmq-c; the text of `perror`;
-- the thread that the front end starts beside its loop; and a failure of `mmap` or `ftruncate` in
-- semaphore_test.c.
pub mod Common
pub mod Memory
pub mod Queue
pub mod SharedBuffer
pub mod Argv
pub mod Dump
pub mod Config
pub mod Configure
pub mod Inbox
pub mod Session
pub mod Unbind
pub mod Consumer
pub mod Ssl
pub mod Start
pub mod Machine
pub mod Process
pub mod Semaphores
pub mod Front
pub mod Listener
pub mod Backend
pub mod Clock
pub mod Person
