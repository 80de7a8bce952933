-- ===== src/Threaded/Tests.antt =====
-- Runs of a thread and of the buffer.
use cs.Base.{◌≤◌, ◌≡◌, refl, true, [], ◌∷◌, ◌++◌, none, some, arith, replicate}
use cs.CString.{Bytes, codes}
use cs.CString.Search.{strstr, starts_with, cstr}
use cs.Http.{end_of_headers, is_complete_request}
use cs.Http.Url.{Url, IsUrl, Fits, request_text}
use cs.Proxy.{arrived, connected}
use cs.Proxy.Handlers.{connect_to_server}
use cs.Proxy.Forward.{forwarded}
use cs.Threaded.{Calls, ok, thread_sizes, client_loop, get_client_request, act_as_server_and_client}
use cs.Threaded.{reformat_request}
use cs.Threaded.Agrees.{reformat_request-agrees}
use cs.Proxy.{Conn}
use cs.Proxy.Request.{reformat_client_request}
use cs.Proxy.Forward.{fresh, reformatted}
use cs.Threaded.Relay.{act_as_server_and_client-relays, reformat_request-url}
use cs.Threaded.Sbuf.{
  sbuf_init, idle, insert_slot, insert_locked, insert_stored, insert, World, move, advance_thread,
  sem_wait, store_item,
}
use cs.Threaded.Sbuf.Modulo.{total}
use cs.Threaded.Sbuf.Fifo.{lock_held}
use cs.Threaded.Sbuf.Runs.{Reaches, start, then_move, begin, Reaches-exclusive}

abbrev pub site : Url
site = record { host = codes "a.org"; port = none; path = some (codes "x") }

abbrev pub site_tail : Bytes
site_tail = codes "HTTP/1.0" ++ end_of_headers

site-IsUrl : IsUrl site
site-IsUrl = record {
  host_ne = ground arith;
  host_space = omega arith;
  host_slash = omega arith;
  host_colon = omega arith;
  host_zero = omega arith;
  port_space = omega arith;
  port_slash = omega arith;
  port_zero = omega arith;
  path_space = omega arith;
  path_zero = omega arith;
}

site-Fits : Fits thread_sizes (codes "GET") site site_tail
site-Fits = record {
  request = omega arith;
  method = omega arith;
  host_port = omega arith;
  host_str = omega arith;
  hostname = omega arith;
  port = omega arith;
  uri = omega arith;
}

abbrev pub site_request : Bytes
site_request = request_text (codes "GET") site site_tail

site_complete : is_complete_request site_request ≡ true
unfolding is_complete_request strstr starts_with
site_complete = refl

-- The array for the new request holds the bytes 7 7 before a zero.
abbrev pub site_calls : Calls
site_calls = record {
  fresh_request = [];
  fresh_server = 7 ∷ 7 ∷ [];
  client_reads = arrived site_request ∷ [];
  attempts = connected 6 ∷ [];
  server_writes = replicate 220 9;
  server_reads = arrived (codes "ab") ∷ arrived (codes "c") ∷ arrived [] ∷ [];
  client_writes = 2 ∷ 1 ∷ 1 ∷ [];
}

site_read : get_client_request [] (arrived site_request ∷ []) ≡ ok site_request
unfolding get_client_request client_loop is_complete_request strstr starts_with cstr
site_read = refl

site_connected : (connect_to_server (connected 6 ∷ [])).1 ≡ some 6
unfolding connect_to_server
site_connected = refl

act_as_server_and_client-relays_example :
    act_as_server_and_client site_calls
    ≡ ok (
      6,
      (
        (7 ∷ 7 ∷ []) ++ forwarded (codes "GET") (codes "x") (codes "a.org") (codes "80"),
        codes "abc",
      ),
    )
act_as_server_and_client-relays_example =
    act_as_server_and_client-relays site_calls (codes "GET") site site_tail (codes "x")
      (codes "ab" ∷ codes "c" ∷ []) 6 site-IsUrl (omega arith, (omega arith, ground arith))
      (omega arith) site-Fits site_complete refl (omega arith) site_read site_connected refl
      (omega arith) (omega arith) (omega arith) (omega arith) (omega arith) (omega arith)

abbrev after_wait : World
after_wait = record (begin 2 2) {
  sbuf = record { buf = 0 ∷ 0 ∷ []; n = 2; front = 0; rear = 0; mutex = 1; slots = 1; items = 0 };
  threads = insert_slot 7 ∷ idle ∷ [];
}

abbrev after_lock : World
after_lock = record after_wait {
  sbuf = record { buf = 0 ∷ 0 ∷ []; n = 2; front = 0; rear = 0; mutex = 0; slots = 1; items = 0 };
  threads = insert_locked 7 ∷ idle ∷ [];
}

abbrev after_store : World
after_store = record after_lock {
  sbuf = record { buf = 0 ∷ 7 ∷ []; n = 2; front = 0; rear = 1; mutex = 0; slots = 1; items = 0 };
  threads = insert_stored ∷ idle ∷ [];
  stored = 7 ∷ [];
}

after_store_reached : Reaches 2 2 after_store
unfolding move advance_thread sem_wait store_item sbuf_init
after_store_reached =
    then_move {w = after_lock} (insert 7) 0
      (then_move {w = after_wait} (insert 7) 0 (then_move {w = begin 2 2} (insert 7) 0 start refl)
        refl)
      refl

Reaches-exclusive_example : total lock_held (insert_stored ∷ idle ∷ []) ≤ 1
Reaches-exclusive_example = Reaches-exclusive 2 2 after_store (omega arith) after_store_reached

abbrev site_forwarded : Bytes
site_forwarded = forwarded (codes "GET") (codes "x") (codes "a.org") (codes "80")

site_reformatted :
    reformat_request (7 ∷ 7 ∷ []) site_request
    ≡ some (codes "a.org", (codes "80", (7 ∷ 7 ∷ []) ++ site_forwarded))
site_reformatted =
    reformat_request-url (7 ∷ 7 ∷ []) (codes "GET") site site_tail (codes "x") site-IsUrl
      (omega arith, ground arith) (omega arith) site-Fits site_complete refl (omega arith)

abbrev site_conn : Conn
site_conn = record (fresh 5) { client_request = site_request }

site_zero : cstr site_request ≡ site_request
unfolding cstr
site_zero = refl

reformat_request-agrees_example :
    (s : Bytes) × ((7 ∷ 7 ∷ []) ++ site_forwarded ≡ (7 ∷ 7 ∷ []) ++ s)
    × (reformat_client_request site_conn
        ≡ some (reformatted site_conn (codes "a.org") (codes "80") s))
reformat_request-agrees_example =
    reformat_request-agrees (7 ∷ 7 ∷ []) site_request (codes "a.org") (codes "80")
      ((7 ∷ 7 ∷ []) ++ site_forwarded) site_conn site_reformatted (omega arith) site_zero refl
