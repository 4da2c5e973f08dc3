-- ===== src/Lib.antt =====
-- amigactl: the daemon of daemon/ and its wire protocol.
--
-- The daemon is one event loop. For each client it receives bytes into a buffer, cuts complete
-- command lines out of it and dispatches them; a handler answers with frames of the protocol, and
-- may start, list, signal or kill processes that are kept in a table.
--
-- Prelude   Tests on numbers, lists, byte strings, exclusive or, `%d`, `strtol` and `sscanf`.
-- Inbound   The receive buffer of a client: recv_into_buf and extract_command of daemon/net.c, and
--           the discard mode. A buffer is the list of its first recv_len bytes. Lines has lemmas.
-- Wire      send_all to send_ready of daemon/net.c over a socket that takes part of the bytes or
--           fails, as its Network says. Frames has the protocol's text of each frame, Client the
--           reader of client/amigactl/protocol.py, RoundTrip the way from the one to the other.
-- Effects   What handlers do to the outside, in the order of their calls: frames sent, locks given
--           back, signals raised, tasks removed.
-- Procs     The process table of daemon/exec.c: the choice of a slot, the launch (Launch), the end
--           of the wrapper, the harvest, and the handlers on the table (Commands). Slots, Lookup,
--           Invariant, Steps, Started, Safety and Again hold the proofs.
-- Arexx     The bridge of daemon/arexx.c between clients and ARexx ports: slots for messages that
--           wait for a reply, with what daemon/main.c does to them when a client comes or goes.
--           Waiting, Served and Steps hold the invariant, Answers says whom a reply reaches.
-- Config    daemon/config.c: the configuration file and the access list. Valid is about every file,
--           Address about single addresses.
-- Tail      cmd_tail and tail_poll_file of daemon/tail.c, and the polls of one client as the event
--           loop makes them. Copy is about the loop of one poll, Growth about a file that grows.
-- Receive   recv_exact_from_client and recv_line_blocking of daemon/net.c, the reads of a handler in
--           the middle of its command, on the same buffer. Pending and Lines are about the bytes
--           that are still to come.
-- Serve     handle_client of daemon/main.c and the part of the event loop that serves one
--           connection, with its modes. Handlers may read on from the buffer and the socket. Run is
--           the description that it is compared with: steps on the bytes still to come, with no
--           buffer and no reads in sight. Commands and Rounds prove that the code does such steps.
-- File      The file commands of daemon/file.c. Dos is the interface to dos.library, with the laws
--           that the commands rely on, Ram a disk that has them. Arguments, Upload, Write and
--           Append are WRITE and APPEND: Upload has the transfer, its Stream the description by
--           the bytes that a client sends, its Client what client/amigactl/protocol.py sends. Read
--           is READ, Checksum and Crc are CHECKSUM, Short has DELETE, RENAME, MAKEDIR and SETCOMMENT,
--           SetDate is SETDATE, Protect is PROTECT, Dates the datestamps, with the conversion
--           of days that daemon/trace.c has of its own.
-- Trace     The send buffer of a tracing client in daemon/trace.c and what a poll does with it.
--           History has the meaning of the chunks, Runs the polls one after another.
-- Dispatch  dispatch_command of daemon/main.c. Described puts it into the loop of Serve, Stays is about
--           the end of the daemon.
--
-- The dispatch, the reply to an oversized line and the input of the modes TAIL and TRACE are
-- parameters of Serve, the handlers and the text of UPTIME are a parameter of Dispatch; the answers
-- of `send`, `recv`, `Lock`, `Read`, `CreateNewProcTags` and of the message port are parameters of
-- the others. Texts are lists of byte codes. `handle_client` runs on fuel, one more than the bytes
-- still to come: each command takes at least its newline out of them, and handlers add none.
-- `send_all` runs on one more than the bytes to send, since a send that succeeds takes at least one;
-- `read_response` on one more than the bytes left to read, since each line takes its newline;
-- `config_load` on one more than the bytes of the file, since each call of `fgets` takes at least
-- one; a poll of TAIL on one more than the bytes of the file, since each read moves the position,
-- and READ and CHECKSUM in the same way. The blocking read of a line runs on one more than the bytes
-- that still arrive, that of a number of bytes on one more than this number, the transfer of WRITE
-- and APPEND on one more than the bytes pending: each of their rounds takes a byte at least. The
-- search for the year of a day runs on one more than the day. `sscanf` gives the value of a number
-- out of the range of int, for which C defines none. The days of a stamp are not negative. Process
-- ids are numbers, and every launch in a sequence of steps asks for a next id below the largest int.
-- The handlers' Forbid and Permit make each of them one step with respect to the wrappers; a wrapper
-- clears its lock, stores its return code and sets its mark in three steps. That it has unlocked its
-- directory some time before the first of them is not part of the table. A file that is read has the
-- same bytes throughout. The `Seek` of a TAIL poll is taken to succeed. The seconds between two
-- dates are taken to fit into a LONG.
--
-- Not modelled: the run of a command (exec_sync, the inside of async_wrapper, the search for its
-- segment), sockets and libraries being opened, DIR, STAT, COPY, system information, the filters,
-- the name caches and the formatting of trace events, the input and the end of TAIL, the end of the
-- ARexx bridge, the atrace loader with its generated machine code, and the client's user interface.
pub mod Prelude
pub mod Inbound
pub mod Wire
pub mod Effects
pub mod Procs
pub mod Arexx
pub mod Config
pub mod Tail
pub mod Receive
pub mod Serve
pub mod File
pub mod Trace
pub mod Dispatch
