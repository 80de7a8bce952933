-- ===== src/Lib.antt =====
-- The course programs of this repository, verified.
--
-- shell-lab2/tsh.c is a shell with job control. Its model is the module Shell:
--   Shell/State.antt    the job list and the globals, the lines printed, the signals
--   Shell/Jobs.antt     the job list routines; proofs in Shell/Jobs/
--   Shell/Parse.antt    parseline; proofs in Shell/Parse/
--   Shell/Signals.antt  the signal handlers and waitfg; proofs in Shell/Signals/
--   Shell/Control.antt  do_bgfg, builtin_cmd, eval and the loop of main; proofs in Shell/Control/
--   Shell/Main.antt     the options and the child of eval
-- eval calls parseline, then builtin_cmd or fork and addjob, then waitfg; the handlers change the job
-- list while waitfg sleeps. A pointer into the job list is an index. The signals that reach the shell
-- are a list that the routines take from; they come at the call of kill or the unblocking of SIGCHLD,
-- in each round of waitfg, and at the prompt. A text is the list of the bytes before its zero.
-- An empty argument, which only two single quotes in a row give, is taken to have zero behind it.
-- The loop of parseline runs on fuel, one more than the length of the text.
--
-- shell-lab1/tsh.c is the shell before it, which runs pipelines; it has the same parseline. Its model
-- is the module Pipeline:
--   Pipeline.antt           parseargs, builtin_cmd and eval
--   Pipeline/Walk.antt      the proofs about parseargs
--   Pipeline/Commands.antt  those about the children
--   Pipeline/Descriptors.antt  the descriptors of the children and of the shell: the calls of pipe, fopen,
--                           dup2 and close, with the proofs in Pipeline/Descriptors/
--   Pipeline/Parent.antt    the group of the children, the wait for them, and the loop of main
-- A child is its words, its input and its output; a null pointer in argv is a missing word.
-- An open of a name succeeds, and a descriptor is the lowest that is free.
--
-- hw6-concurrency/http_parser.c takes a request of a client apart; Http.antt models it for any array
-- sizes, Http/Url.antt has its proofs. Both proxies repeat it.
--
-- proxy-lab2/proxylab2-handout/proxy.c is a proxy on one thread and epoll. Its model is the module Proxy:
--   Proxy.antt           the connection states, the results of the system calls, the ways a handler ends
--   Proxy/Request.antt   reformat_client_request, which uses the parser
--   Proxy/Handlers.antt  read_request, send_request, read_response, send_response and the two connects
--   Proxy/Events.antt    the table of connections and what main does at one event
--   Proxy/Session.antt   a connection from event to event; proofs in Proxy/Session/
--   Proxy/Transfer.antt, Chunks.antt, Forward.antt, Spins.antt, Answer.antt, Table.antt,
--   Order.antt           the proofs
-- Each loop of reads or writes takes the results of its calls from a list, and is still in the loop
-- where the list ends: there is no fuel. A buffer is the bytes written since it was cleared. A write
-- behind an array, a read through a null pointer and a string that was never written end as unsafe.
-- That accept stops the loop of connect_to_client is the end of its list.
--
-- proxy-lab1/proxylab1-handout/proxy.c is a proxy with threads, each of which takes client sockets out
-- of the bounded buffer of sbuf.c. Its model is the module Threaded:
--   Threaded.antt        act_as_server_and_client and what it calls, for one client
--   Threaded/Relay.antt  its proofs
--   Threaded/Sbuf.antt   the buffer with its three semaphores, and the moves of the threads that use it
--   Threaded/Sbuf/       the ring is a queue (Modulo.antt, Fifo.antt), after each move (Moves.antt) and in all
--                        runs (Runs.antt)
--   Threaded/Server.antt  main and thread: who accepts, inserts, removes, serves and closes; proofs in
--                        Threaded/Server/
--   Threaded/Agrees.antt  the requests of both proxies, with Http/Arrays.antt
-- The counters of the ring are numbers; in the code they are of type int and overflow after 2^31 - 1
-- items. A string built by strcat begins with what malloc returned, which is an argument. A thread that waits
-- at a semaphore has no move.
--
-- dns-lab/resolver.c asks a name server for an address. Its model is the module Dns:
--   Dns.antt             canonicalize_name, name_ascii_to_wire, create_dns_query
--   Dns/Alias.antt       grabCNames and its proofs
--   Dns/Records.antt     rr_from_wire and get_answer_address
--   Dns/Resolve.antt     send_recv_message and resolve; proofs in Dns/Asks.antt
--   Dns/Names.antt, Query.antt, Addresses.antt   the other proofs
-- The successive calls of strtok are the parts between dots that are not empty. grabCNames runs on a
-- number of rounds, and what it needs is proved; there is a name on which none is enough. The random
-- id, the bytes that malloc returns and the value of the index that is never set are arguments.
--
-- hw1-catmatch/catmatch.c prints a file with a mark at each line: Catmatch.antt, its proofs in
-- Catmatch/Lines.antt.
--
-- hw4-signals/signals.c handles ten signals, and killer.c sends them. The model is the module Signals:
--   Signals.antt         the handlers, statement by statement, and the loop of main
--   Signals/Killer.antt  the scenarios
--   Signals/Prints.antt, Kept.antt, Runs.antt   the proofs
-- Signals, statements and ends of children come in any order, so a sleep may last as long as it likes.
-- The set of signals that a handler blocks besides its own, which is never set in the code, is empty.
--
-- hw5-sockets/client.c sends a file to server.c, which sends it back. The model is the module Echo:
--   Echo.antt            the loops of both, over the results of their calls
--   Echo/RoundTrip.antt  the proofs
--
-- hw7-openmp/mandelbrot.c computes a picture with several threads, orig.c one pixel after the other. The
-- model is the module Mandelbrot, over an abstract type for double with the operations that are used:
--   Mandelbrot.antt        the inner loop, the pixels, the file of orig.c, the buffer of mandelbrot.c
--   Mandelbrot/Rows.antt, Order.antt   the buffer and the file
--   Mandelbrot/Orbit.antt  the inner loop and the points that it goes through
--   Mandelbrot/Race.antt   the parallel loop, one statement a step, with the variables that the threads
--                          share; proofs in Mandelbrot/Race/
-- The inner loop has maxiter rounds of fuel, and its counter ends it by then. A width and a height are
-- not negative.
--
-- Base.antt has the shared names and list lemmas, CString.antt the C string functions.
--
-- Not modelled: csapp.c (the library of the textbook), tiny (its web server), the test drivers, and the
-- fork program and the echo servers of the homeworks.
pub mod Base
pub mod CString
pub mod Shell
pub mod Http
pub mod Proxy
pub mod Signals
pub mod Dns
pub mod Threaded
pub mod Pipeline
pub mod Echo
pub mod Catmatch
pub mod Mandelbrot
