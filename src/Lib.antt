-- ===== src/Lib.antt =====
-- PennMail and PennDrive: the storage servers and the coordinator of the back end, and of the front
-- end the mail server, the load balancer and the helpers on texts.
--
-- A storage server keeps five tablets, maps from (row, column) to a value. A client's command
-- PUT, CPUT or DELETE reaches some server of the partition. A replica passes it on to the primary;
-- the primary numbers it, and runs two-phase commit with the replicas over lines `TPC:...`. Each
-- server executes the committed commands in the order of their numbers, logs them, and writes
-- checkpoints. After a crash a server reads its checkpoint and its log again. The coordinator chooses
-- the primary of each partition, notes failures, and pauses servers. The mail server asks the
-- coordinator for a storage server, and puts each mail into the rows of its recipients.
--
-- The files, with the code that they model:
--   Base         texts as lists of bytes, lines that come in by reads, `std::string` searches,
--                maps, the outcomes of a run
--   Server       backend/include/externs.h, backend/src/externs.cpp: the globals, as records
--   Command      backend/src/utils.cpp: get_tablet, generate_client_response
--   Store        utils.cpp: get_command_locks, execute_command, parsing_logic. Store/Ops names the
--                commands, Store/Execute and Store/Replay are about running them and reading them
--                back, Store/Locks about their row locks
--   Wal          utils.cpp: log_message, flush_log, recover_table, restore_table,
--                create_new_checkpoint, create_log_string, parse_log_string. Wal/Entries is about one
--                entry of a log file, Wal/History about runs of commands, Wal/Crash about recovery,
--                Wal/Values about one entry of a checkpoint, Wal/Checkpoint about checkpoints read
--                back
--   Net          utils.cpp: do_write_backend, forward_msg, send_queued_messages. Net/Reads has
--                do_read_backend
--   Tablets      utils.cpp: load_tablet, load_tablets_startup, start_new_checkpoint, clear_tablet,
--                parse_checkpoint_file, make_kv_pairs. Tablets/Reload is about a tablet that is
--                cleared and loaded again
--   Tpc          utils.cpp: process_tpc_queue, already_processed, primary_abort_transaction,
--                primary_commit_transaction, start_tpc, write_to_tpc_log, process_tpc_log. Tpc/Queue
--                and Tpc/Commit are about the queue, Tpc/Log about the log file
--   Handler      backend/src/threads.cpp: handle_message; utils.cpp: handle_primary_queue,
--                send_queued_primary.
--                Handler/Growth and Handler/Numbers are about the numbers of transactions,
--                Handler/Decisions about decisions, Handler/Votes and Handler/Lines about the messages
--                between primary and replica
--   Dispatch     threads.cpp: start_func, on a complete message. Dispatch/Lines is about single
--                messages
--   Coordinator  backend/coordinator.cpp: choose_random_server, handle_server_failure, the requests
--                STOP and START. Coordinator/Requests has the other requests of frontend servers,
--                Coordinator/Storage the connections of storage servers, Coordinator/Closing those
--                that are closed. Coordinator/Choice is about choose_random_server,
--                Coordinator/Primary about the primary of a partition, Coordinator/Silence and
--                Coordinator/Arrivals about heartbeats, Coordinator/Closing/Swept about what a sweep
--                leaves
--   Frontend     frontend/src/stringutils.cc (Strings, Bytes, Json), url.cc (Url), chunk.cc (Chunks),
--                message.cc (Messages), and the places of connections in frontend/src/ioutils.cc,
--                frontend/fserver.cc and frontend/smtp_server.cc (Slots); Frontend/Ordered is
--                std::map with strings as keys, Frontend/Cells tells which keys and values a command
--                to a storage server can carry. Their children Laws are about them
--   Membership   frontend/src/membership.cc: HTTPServer, is_server, handle_fserver_state,
--                get_roundrobin_redirect; frontend/loadbalancer.cc: the answers of main, get_status.
--                Membership/Redirects is about redirects
--   Threads      threads.cpp: log_func, recovery_func, tpc_primary_recovery_function,
--                tpc_check_function, the end of start_func; utils.cpp: clear_func. Threads/Recovery
--                and Tpc/Aborts are about the end of a primary's recovery. Threads/Polls is the loop
--                of start_func over what poll and recv give, Threads/Accepts what main and
--                shut_down_func of backend/table.cpp note of connections, Threads/Accepts/Ends is
--                about a connection that comes and ends
--   Smtp         frontend/smtp_server.cc: the instructions of worker. Smtp/Delivery has the delivery
--                of a mail, Smtp/Worker the loop over reads. Smtp/Addresses is about verify_domain,
--                Smtp/Recipients, Smtp/Instructions and Smtp/Sessions about what holds of a
--                session, Smtp/Reads and Smtp/Splits about how bytes are split over reads, Smtp/Mails about
--                what is stored, Smtp/Resets and Smtp/Names about what a reset leaves
--   Drive        frontend/src/http.cc: /upload-file, /create-folder, /files-list, /delete-file,
--                login_failure; frontend/src/ioutils.cc: create_http_response. Drive/Moves has
--                /rename-file, /move-file, /download and, of stringutils.cc, renameFolder and
--                renameMovedFolder. Drive/Lists is about a folder's list, Drive/Files about uploading
--                and deleting a file, Drive/Renames about renaming and downloading one
--   Mailbox      frontend/src/http.cc: /email-list, /username, /delete-email. Mailbox/Lists is about
--                a list of mails after a delivery. Mailbox/Sending has /send-email, with
--                frontend/src/email.cc, Mailbox/Sending/Titles is about long subjects
--   Accounts     frontend/src/http.cc: get_client_params, is_full_body, auth_user, post_redirect,
--                logout, redirect_admin, /signup, /changepassword. Accounts/Login has /login, the
--                response to a form and frontend/src/cookie.cc. Accounts/Cookies is about the cookies
--                of a browser, Accounts/Sessions about whom they name
--   Web          frontend/src/http.cc: handle_http_client, with readline and read_from_chunk_transfer
--                of frontend/src/chunk.cc and send_response of frontend/src/ioutils.cc. Web/Parts is
--                about requests in several reads. Web/Admin has the administrator's requests,
--                Web/Admin/Status is about the list of servers, Web/Pages has the templates
--   Config       backend/src/utils.cpp: IP_port, coord_address, populate_addresses;
--                backend/coordinator.cpp: how main reads the servers' file. Config/Printed,
--                Config/Lines and Config/Addressed are about the file of a storage server,
--                Config/Registry about what the coordinator knows
--   Examples     runs on small stores and servers. Examples/Backed is the front end's table in one
--                storage server without replicas, with Store and its row locks behind it
--
-- State is passed explicitly. A run ends as `ok`, as `blocked` (it waits for a mutex that nobody
-- releases, or loops for ever) or as `stopped` (an exception or a null lock ends the process). A
-- handler runs without a break; the mutexes that a call takes and releases itself leave no trace, and
-- `tpc_queue_lock`, which process_tpc_queue may keep, is the field `queue_locked`. Numbers are
-- natural: a negative `opt` is 0, and a message with a negative number counts as `stopped`.
--
-- The loop of process_tpc_queue is on fuel 2: its body runs at most once. The loop of
-- parse_log_string over the marks of a text is on its length, and a printed number on its size. The
-- numbers that `rand` gives to choose_random_server are a list, and `blocked` is the answer where none
-- of them names a server that can be chosen.
--
-- A buffer of the mail server that is overrun, a pointer that is freed twice and other undefined
-- behaviour count as `stopped`, with two exceptions that are taken as harmless: recipients behind the
-- array of 100, and the zero of an address behind its block, which is one byte short. The mail
-- server's table is the record `Services`, those of the front end `Storage` and `Backend`. What is
-- relied on there are the records `IsTable` and `IsBackend`: they speak of keys and values that a
-- command can carry (Frontend/Cells: not empty, keys without white space, rows other than `passwd`,
-- values in one line without white space at the end) and of PUTs and DELETEs that are answered +OK;
-- a table stands for the server that was reached. Examples/Backed has the code of a storage server
-- for one. The handlers
-- of the HTTP methods are the record `Handlers`, the servers that an administrator asks `Nodes`, the
-- hosts that mails go to `Hosts`. The loops of the front end's helpers, and those over the lines of
-- a buffer, are on the length of their text.
--
-- Not modelled: sockets, files that cannot be opened, threads and their interleaving within a handler,
-- the command lines, and of the front end's HTTP server what is not listed above. The clock, /proc/meminfo, the hash of a message and the digests of
-- OpenSSL are parameters.
pub mod Base
pub mod Server
pub mod Command
pub mod Store
pub mod Wal
pub mod Net
pub mod Tablets
pub mod Tpc
pub mod Handler
pub mod Dispatch
pub mod Coordinator
pub mod Config
pub mod Frontend
pub mod Membership
pub mod Threads
pub mod Smtp
pub mod Drive
pub mod Mailbox
pub mod Accounts
pub mod Web
pub mod Examples
