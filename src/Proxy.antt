-- ===== src/Proxy.antt =====
-- The event-driven proxy of proxy-lab2/proxylab2-handout/proxy.c: its connection states and what a
-- system call reports. The request of a client goes to the server in other words, and the answer
-- comes back unchanged; each of the four steps stops where its socket would block.
pub mod Request
pub mod Handlers
pub mod Events
pub mod Transfer
pub mod Chunks
pub mod Forward
pub mod Spins
pub mod Answer
pub mod Table
pub mod Order
pub mod Session
mod Tests
use cs.Base.{ℕ, ◌≤◌, List, Option, Bool, []}
use cs.CString.{Bytes}

abbrev pub max_object_size : ℕ
max_object_size = 102400

abbrev pub max_states : ℕ
max_states = 100

abbrev pub max_host_size : ℕ
max_host_size = 1024

abbrev pub max_port_size : ℕ
max_port_size = 16

pub data State : Type 0 where
  read_req send_req read_res send_res : State

-- Of each buffer the bytes written since it was cleared; zeros follow.
pub record Conn : Type 0 where
  pub client_socket_fd : ℕ
  pub server_socket_fd : ℕ
  pub host : Bytes
  pub port : Bytes
  pub client_request : Bytes
  pub server_request : Bytes
  pub server_response : Bytes
  pub state : State
  pub bytes_read_from_client : ℕ
  pub bytes_to_write_server : ℕ
  pub bytes_written_to_server : ℕ
  pub bytes_read_from_server : ℕ
  pub bytes_to_write_client : ℕ
  pub bytes_written_to_client : ℕ

abbrev pub init_conn_state : Conn
init_conn_state = record {
  client_socket_fd = 0;
  server_socket_fd = 0;
  host = [];
  port = [];
  client_request = [];
  server_request = [];
  server_response = [];
  state = State.read_req;
  bytes_read_from_client = 0;
  bytes_to_write_server = 0;
  bytes_written_to_server = 0;
  bytes_read_from_server = 0;
  bytes_to_write_client = 0;
  bytes_written_to_client = 0;
}

-- What `read` reports: bytes, of which it delivers as many as there is room for and none at the end
-- of the stream; EAGAIN; or another error.
pub data Read : Type 0 where
  arrived : Bytes → Read
  blocked failed : Read

-- What `write` reports: how many of the bytes it was given it can take.
pub data Write : Type 0 where
  took : ℕ → Write
  blocked failed : Write

-- How a loop of reads or writes ends; `ongoing` where it asks for a further report.
pub data Ended : Type 0 where
  ongoing finished blocked failed : Ended

-- An address of the list of `getaddrinfo`: `socket` fails, or `connect` fails or succeeds.
pub data Attempt : Type 0 where
  no_socket : Attempt
  refused connected : ℕ → Attempt

-- What a handler asks of the system.
pub data Action : Type 0 where
  close : ℕ → Action
  send : ℕ → Bytes → Action
  add_in add_out mod_in mod_out : ℕ → Action

-- How a handler ends: it still loops, it returns, it exits the program, or it has read or written
-- outside a string or an array.
pub data Outcome : Type 0 where
  looping : Conn → Outcome
  returned : Conn → List Action → Outcome
  exits unsafe : Outcome
