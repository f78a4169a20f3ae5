-- ===== src/Lib.antt =====
-- A verified model of the replicated adder: servers that add the numbers of their clients to one
-- sum, a primary that copies the sum to its replicas, a bully election when the primary falls
-- silent, and the client that finds a server and sends it values.
--
-- The parts, and the files that model them:
--
--   Base         what the others share: tests, lists, arrays, integers, the mutex and the sends of a call
--   Net          struct sockaddr_in, htons and ntohs
--   Replication  replication.c and replication.h
--     Types        the messages, the entries of the table, the manager `rm`
--     Table        the loops over rm.replicas, send_replica_list, heartbeat_service
--     Election     start_election, check_primary_status, the handlers of START_ELECTION,
--                  ELECTION_RESPONSE and VICTORY
--     State        get_current_sum, update_state, handle_state_update
--     Membership   add_replica, add_discovered_replica, the loop over REPLICA_LIST_UPDATE
--     Receiver     process_replication_message, replication_receiver_service
--     Startup      init_replication_manager
--     Joining      init_replication, send_join_request and replication_thread, which nothing starts;
--                  stop_replication_manager
--     JoinRequest  what is proved of send_join_request
--     Services     the loops of heartbeat_service and primary_check_service
--     Locking, Distinct, Copying, Role, Freshness, Sends, Agreement, Failover, Succession, Challenge,
--     Faults, Entries, Origin, Signing, Rounds, Heartbeat, Watch,
--     Welcome
--                  what is proved of them, each file about one aspect
--   Server       server_prot.c and server_prot.h
--     Packet       the packets between client and server
--     Request      request_service, the answers of discovery_service
--     Service      the loops of the two services, and how they stop
--     Accounting   what is proved of that of the request service
--     Processing   adder_implementation of processing.c, which nothing calls
--     Adder        what is proved of Request
--     Interleaving a request between whose critical sections another thread acts
--   Client       client.c
--     Search       discover_server
--     Exchange     send_request
--     Session      the bodies of RunClient's loops over values: one value (`submit`, the same code
--                  stands in both loops), a file of values, values typed in up to a zero
--     Menu, Loops  RunClient: its input, its two menus, and the loops around them
--     Typing       what is proved of them
--     Program      main of client_main.c, the thread that RunClient starts, and its end
--     Ports, Attempts
--                  what is proved of Search and of Exchange
--     Delivery, Answers, Resending, Sums, Meeting, Visit
--                  client and server together: the server's answer as the client's attempt
--   Discovery    discovery.c, which is built into the server and which nothing starts
--     Clients      AddNewClient, GetClientsVector, cleanup_clients
--     Service      handle_discovery_packet, a round of discovery_service, the first announcement
--     Cleanup, Announced, Ports, Rounds
--                  what is proved of them, with replication.c and with client.c
--     Stop         the loop of discovery_service, and stop_discovery_service
--   Node         one server as a whole: the rounds of its threads in any order
--     Process      ServerMain, init_server and main of server_main.c, and which server they start
--     Shutdown     init_server from pthread_join on, and stop_server
--   System       all servers and every datagram ever sent: the rounds of all threads, interleaved
--     Members, Provenance, Split, Overtaken
--                  what is proved of it
--     Survival     an outage from end to end: a value, its replication, the failover, and the clients
--                  of the new primary
--   Sockets      the functions of all these files that open a socket: their calls, each of which may
--                fail, up to the loop that uses the socket
--     Example      main of client_socket.c, which goes on where a call fails
--   Bakery       lamport.c, lamport.h and program.c in the folder "Atividade 1 - Algorítmo da padaria"
--     Lock         the shared arrays, the threads one access at a time, and their interleaving
--     Order, Moves, Entries, Ordered, Ranges, Invariant
--                  what holds of two threads in the lock, and that every access keeps it
--     Exclusion, Inside, Progress, Turns, Finish
--                  what is proved of them
--     Hardware     hw_thread_process, which counts under a pthread mutex, and what is proved of it
--     Repeated     libbakery.c, whose threads take the same lock for each increment: Steps takes each
--                  access as one of lamport.c or as none, Invariant is what is proved
--   Tests        runs at fixed inputs, and the theorems at inputs that meet their hypotheses
--
-- A handler is a function from the manager to the manager after it and the list of its effects, in
-- order: the mutex taken and freed, the datagrams sent, the sleeps. A round of a thread's loop is a
-- function too, and takes what recvfrom gave. time(NULL) is a parameter, a `Clock` that gives the
-- readings of one call in order, with no assumption on them; sockets are the arguments and results
-- around the rounds, so that loss, repetition and reordering of datagrams are all allowed.
--
-- Integers are signed and of any size (ℤ of Base); where the program adds ints the result is wrapped
-- as the compiled code does (wrap_int), and htons cuts to sixteen bits. The difference of two times
-- is taken over the integers. Flags are Booleans, since the program reads their truth value only.
-- The table of replicas is the list of its slots in use, and replica_count its length: no slot
-- behind it is ever read. The array in a message keeps all of its slots and its count is free,
-- because it comes from the network; a read behind that array is the result `none`. Of a table with
-- more entries than the array has slots only the first would be in the message, with the count of
-- all; memcpy writes behind the array there. Of the answers to clients those are kept that sendto
-- took whole, without the pauses between its attempts.
--
-- The client's network is a function from the number of an attempt, or of a port, to what comes of
-- it, and free: answers may be lost, come from another server or be of another type. Where client
-- and server are taken together the answer of a round of the server is what the attempt gets. An
-- answer is a whole response there, as the server sends it; the type of a packet too short for it
-- can be read by discover_server, which does not compare the length.
--
-- In Bakery a step is one read or one write of a shared variable, in any interleaving of the threads
-- that is sequentially consistent; the compiled code on a machine that delays writes has more
-- behaviours. `ticket[i] > max ? ticket[i] : max` reads twice. The numbers of threads and of
-- iterations are parameters (N_THREADS and N_ITERACTIONS); tickets and the accumulator are natural
-- numbers, with no width: at the source's constants both stay far below the bound of an int. What the
-- caller of max_ticket gets is a parameter too, as that function has no return statement.
--
-- The threads' loops `while (running)` are given the flag as each test finds it and a number of
-- tests (while_running of Base); `none` says that the loop is not over by then, and a loop whose
-- flag is cleared after n rounds is over with more than n tests. What the other threads do to the
-- manager between two rounds is a parameter of such a loop. Other loops are recursions on the list
-- or on the rounds left: the retry loops have the bound that the source gives them, and
-- cleanup_clients as many rounds as there are clients, since each round removes an entry or passes
-- one. send_join_request gets eleven tests of its ten seconds, as each round without an answer
-- sleeps for one. The menus of the client, which can go round for ever, are given a number of
-- rounds, and `none` says that they are not over by then.
--
-- A round is atomic, but for Interleaving: what another thread does between two critical sections
-- of one call is modelled only for the request service. Logging is left out, with the static
-- variable that only times a log line. The input of the client is a list of ints, of other text
-- and of line ends; its lines are taken to fit their buffers, and what inet_pton and fopen give is
-- a parameter. Of the signal handlers only the exit status is modelled. Not modelled:
-- election_server.c and server_control.c, which are sketches that do not compile; old_server.c,
-- which nothing builds and which only answers a fixed text; dormir of libbakery.c and ThreadSum of
-- program-mainbackup.c, which nothing calls; the thread functions of discovery.c that only return
-- NULL; log_message.
pub mod Base
pub mod Net
pub mod Replication
pub mod Server
pub mod Client
pub mod Discovery
pub mod Node
pub mod System
pub mod Sockets
pub mod Bakery
pub mod Tests
