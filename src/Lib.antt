-- ===== src/Lib.antt =====
-- Verification library of the airport simulation (aeropuerto): processes of one or several hosts that
-- move pieces of luggage over conveyor belts. The belts lie in distributed shared memory; a broker on
-- each host passes the token of every shared resource round among its clients.
--
-- The parts of the program and the files that model them:
--
-- - Base: numbers, lists, Boolean tests, counting semaphores as the clients of
--   clientes/semaphore_set_distribuido.cpp see them (`wait_on`, `signalize`), and the contents of a
--   ring buffer (Base/Anillo).
-- - Cintas/Lado, Cintas/Turnos: one side of a belt, its producers or its consumers: a semaphore and a
--   flag "sleeps" for each. The loops that wake the sleepers are `despertar`.
-- - Cintas/Checkin: the belt of the check-in, class Cinta of api/cinta.h.
-- - Cintas/Carga: the belt of a container, class CintaCarga of api/cintacarga.h, with the notice that
--   the check-in has closed.
-- - Cintas/Principal: the central belt, class CintaPrincipal of api/cintaprincipal.h, whose consumers
--   read the piece at the head one after the other, and pass it on or take it out.
-- - Cintas/Escaner: the belts of the scanners, class CintaScanner of api/cintascanner.h: a producer that
--   deals the pieces out, and up to four scanners. Cintas/Escaner/Servicio has the runs of their steps.
--   The end of a scanner is left out: the destructor writes the control memory without its lock.
-- - Cintas/Despachante: a user of the central belt, class ApiDespachante of api/api_despachante.cpp, as
--   far as it works on the belt.
-- - Contenedor: the containers of the loading robot, class Contenedor of api/contenedor.cpp, and how they
--   go to the tractors, in api/api_carga.h.
-- - Mostrador: a counter of the check-in, class ApiCheckIn of api/api_checkin.cpp, with its two processes
--   of processes/puesto_checkin.cpp and processes/controlador_puesto_checkin.cpp.
-- - Grupo: the table of a group of the local broker, class Grupo of local_broker/grupo.cpp: `join`,
--   `leave`, the search for the next client, the pass of the token, the flags of the token.
-- - Grupos: the table of all groups, to which the constructors of Grupo write: the creation of a group
--   and the search for one. The sizes of the tables are parameters.
-- - Transferencia: the way of a token with its memory between the broker and a client, in blocks: class
--   ClientHandler of local_broker/client_handler.cpp and class LocalBrokerComm of
--   clientes/local_broker_comm.cpp.
-- - Reconexion: how a client looks for a broker that it can reach, `reconectar` of class LocalBrokerComm.
-- - Registracion: how it registers and joins a resource, `registrar` and `join` of LocalBrokerComm with
--   `procesar_peticion` of ClientHandler. An error that `join` of the group throws ends the process of
--   the handler: `Final.lanza`.
-- - Candado: the lock of a distributed memory, which the belts stand on: MemoriaDistribuida and
--   ControlTokens of clientes/, the loops `loop_memoria` of both processes that serve a client, and the
--   token manager of local_broker/token_manager.cpp. Candado/Sistema interleaves them all,
--   Candado/Cerrojo is the lock that they stand for.
-- - AnilloDeBrokers: the token and the replicas of a group that go from host to host: class GroupSender
--   of local_broker/group_sender.cpp and class GroupReceiver of local_broker/group_receiver.cpp.
--   AnilloDeBrokers/Nodo has all the messages that a host handles, and rounds through the hosts.
-- - Multiplexer: the process that hands the messages of other hosts to the receivers of the groups, class
--   GroupMultiplexer of local_broker/group_multiplexer.cpp.
-- - MessageBroker: the table of the queues of the message broker, class MessageBroker of
--   local_broker/message_broker.cpp. Which queues the system makes or has is a parameter. An identifier
--   that runs over other entries is a result of its own (`pisa`), after which the table is not followed.
-- - Init: the lines of the .init files, class InitParser of local_broker/init_parser.cpp, and
--   `Grupo::inicializar_memoria`, which writes what they say. The sizes of
--   `int` and of `Equipaje` are parameters. What C++ does not define is `none`: a line that does not fit
--   into 99 characters, a number that is no `int` of 32 bits, a write over the end of the memory.
--
-- State and steps. The shared memory of a belt is a record, and each method is a function of it under
-- the method's name. What a method does between `memoria_compartida->lock()` and `unlock()` is one
-- step, since the lock excludes all others (the producer of Cintas/Escaner takes two locks in turn: two
-- steps); a pass of a loop is `wait_on` and what follows it up to
-- `unlock()`. A pass whose `wait_on` has to wait is `none`. A pass takes its semaphore and the lock at
-- once in the model: in between a caller holds no lock and changes nothing else. A loop that repeats
-- passes until one succeeds is a run of passes; the runs (`Traza`, `Recorrido`, `Paseo`, `Servicio`,
-- `Pases`) leave their order open, so they cover every interleaving. In Grupo an operation holds the mutex of the
-- table from its first line to its last, so it is one step too. In Candado a step is what one process
-- does between two waits, and a socket keeps the messages in order; the clients of a resource stay the
-- same, and none of them is the local broker of another host. In Mostrador a step is what one of the two
-- processes does under the lock. A round of AnilloDeBrokers/Nodo hands to each host what the host before
-- it pushed; a host that has to wait for a mutex is `none`.
--
-- Bounds and fuel. Indices of a ring are natural numbers below its size, and the number of pieces is at
-- most the size, so no `int` of a belt overflows. The loops over a belt's users and over the table's
-- slots are bounded by their numbers. The search for the next client has `max_clients` rounds of fuel;
-- it ends in fewer. The loops of Reconexion have rounds of fuel; the first connection needs one for
-- each broker, and the loop that looks for another broker may not end at all. C strings are lists of
-- character codes, and a name of 64 characters or more is cut as `strncpy` cuts it.
--
-- Not modelled: processes, sockets, queues and shared memory of the operating system (ipc, os,
-- network), the generated RPC and SWIG code, the vendored iniparser and yasper, the database, the log,
-- the Python scripts, and the processes of the simulation, which mostly call the parts above. The
-- network between the hosts is left out; so are clients that leave in the middle of a transfer, the
-- mutexes and semaphores without memory, the leader and the other APIs of the processes.
pub mod Base
pub mod Cintas
pub mod Grupo
pub mod Init
pub mod Contenedor
pub mod Grupos
pub mod Transferencia
pub mod Candado
pub mod Registracion
pub mod Reconexion
pub mod MessageBroker
pub mod Multiplexer
pub mod Mostrador
pub mod AnilloDeBrokers
