-- ===== src/Threaded/Server/Served.antt =====
-- Where the descriptors are that the main thread has accepted.
use cs.Threaded.Server.{Server}
