-- ===== src/Lib.antt =====
-- A peer-to-peer file sharing program: a client keeps a table of torrent files, tells its peers about
-- them, and sends and receives the files in eight chunks.
--
-- The parts and the files that model them:
--  * src/file.h: Tfile (definitions, entries, constants; a digest is its two words).
--  * OpenSSL and the operating system: System, as parameters with the laws that they document.
--  * src/htable.c: Htable, with the loop that probes (Probe), the invariant of the table (Invariant),
--    search (Search), insertion (Insert), resizing (Resize), changes of an entry (Replace), and
--    add_htable as threads run it (Threads).
--  * src/file.c: File, with md5_hash and the loop over chunks (Hash), verify_tfile and
--    is_chunk_verified (Verify), open_tfile and save_tfile (Open), generate_tfile and add_tfile
--    (Generate) and list_tfiles (Listing). Chunks says what the eight chunks of a file are.
--  * src/message.c and src/message.h: Message, with sending (Send) and receiving (Receive).
--  * src/client.c and src/client.h: Peers (peers_t, add_peer, remove_peer, remove_peers), Share
--    (share_tfile_to_peers, share_tfiles_to_peer and the bytes of a definition), Transfer
--    (chunk_payload_t, send_chunk_message, the FILE_DATA branch of readWorker, with its laws in
--    Receive), Worker (chunk_request_t, the TFILE_DEF and REQUEST_FILE_DATA branches, the requests of a
--    round of download_file).
--  * src/client.c, again: Peers.Threads (add_peer as threads run it, step by step), Worker.Connect
--    (connectWorker), Worker.Read (readWorker with its branches, and a chunk from peer to peer in
--    Read.Exchange, a request that is passed on in Read.Relays), Worker.Relay (the branch that passes it on), Worker.Download (download_file),
--    Worker.SelfAddress (sockdata_t, get_address_self, isInitialized, which nothing calls),
--    CommandLine (cmd_args_t, parse_args, the checks of main), Main (main up to the screen) and
--    Main.Display (from ui_init to ui_exit, print_usage, free_args).
--  * src/socket.h: Socket. src/ui.c: Ui.Queue (the list of messages), Ui.Window (ui_init) and Ui.Screen
--    (safe_trim, ui_run, ui_display, ui_exit). src/ui_adapter.c: Ui.Input.
--  * Network puts nodes together: Members (which of them have a definition), Deliveries (a packet that
--    readWorker reads), Announce (the thread of main), Spread (where a definition gets to), Floods and
--    Trees (whether its packets end), Joins (what a node that joins is sent), and Outcomes, with the
--    theorems about a definition that is announced.
--  * Tests: the theorems at concrete tables, files, messages and peers.
--
-- How they interact: messages carry definitions (Share.Wire), requests
-- (Worker.Request) and chunks (Transfer.Payload); the handler of a chunk verifies it, opens the file in
-- the table (File over Htable) and writes into the mapping.
-- Worker.Read takes messages from a stream (Message) and gives them to these handlers; Main and
-- Worker.Connect add peers, send them the files (Share) and start readers; an input (Ui.Input) looks for a
-- file in the table and starts Worker.Download, and what it tells goes through Ui.Queue to the screen.
--
-- How the code is modelled:
--  * A function returns Run: a value, a fault (an access outside of an object, a use of NULL, a bad
--    free, a lock that the thread holds already), or out_of_fuel. A pointer into the table is an index,
--    a mapping is the list of its bytes, a file is what read returns at a position, and a socket is
--    what the kernel answers to the k-th call. An answer is any integer unless a theorem restricts it.
--  * The loop of add_htable and search_htable may make two rounds more than the table has entries. In a
--    valid table each of its loops ends within these, as the theorems on search show. add_htable and
--    resize_htable call one another as deep as a number says; one call is enough where nothing is
--    resized, and the theorem on divergence holds for every number. The loop of send_message and
--    the first loop of receive_message have a round for each byte, which is enough as each moves one
--    at least. The loop that discards has any number of rounds. The loop of download_file has as many
--    rounds as a number says: one more than the rounds that the file takes to arrive; readWorker, connectWorker and
--    ui_run go on as long as the system has answers, which are a list. The loop that shows messages
--    needs one round more than there are messages. All other loops are structural.
--  * A thread that a function starts is run to its end; what other threads do to the table and the
--    peers meanwhile is given from outside, round by round. Only Peers.Threads and Htable.Threads
--    interleave threads.
--  * In Network a message is a packet that is read whole, at any time and in any order; a connection has
--    the number of the other node at each end. Weights of the pairs of nodes stand in for the shape of
--    the network: they exist in a tree, as the number of packets that a packet sets off and itself.
--  * An MD5 that collides is not excluded: a chunk is verified when it has the hash.
--
-- Not modelled: failure of malloc and strdup where the code does not test it; the interleaving of
-- threads other than in add_peer and add_htable, of which besides only the lock that a thread
-- takes twice is seen; file descriptors that the workers do not close; a zero-length array of
-- peers to remove, which is taken as empty; in src/ui.c what ncurses makes of the forms, and
-- refresh; the int that counts the rounds of md5_hash, in files of 2^44 bytes and more; characters
-- of 128 and more, which char may turn into negative codes; the padding bytes of a request, which
-- are taken as 0; and SIGPIPE, which a write to a closed connection may raise.
pub mod Base
pub mod Tfile
pub mod System
pub mod Htable
pub mod File
pub mod Message
pub mod Peers
pub mod Share
pub mod Transfer
pub mod Worker
pub mod Ui
pub mod Socket
pub mod CommandLine
pub mod Main
pub mod Network
pub mod Tests
