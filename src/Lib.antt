-- ===== src/Lib.antt =====
-- The helper of OmaQ, a chat client on Tox: a model of the parts of helper/ that decide, and their
-- proofs. The helper reads commands as lines from the desktop shell, talks to friends and groups
-- over toxcore with Signal sessions on top, and writes events. The parts modelled stand between
-- these: the reader of the lines, the tests and formats of what peers send, the limiters that such
-- packets pass, the queue of messages that wait for a session, and the state that the main loop
-- keeps for conversations and receipts.
--
-- The files, each with its children, and the code they model:
--   Prelude     lists, bytes, numbers and tests that the others share; no code of its own
--   SendQueue   helper/send_queue.c: omaq_send_queue_add is `add`, _oldest is `oldest`, _owned is
--               `owned`, _remove is `remove`. SendQueue/Service is the part of helper/omaq.c that
--               serves the queue: queued_direct_blocker, fail_send_queue, service_send_queue
--   LineReader  helper/line_reader.c: omaq_line_reader_feed is `feed`, one byte of it `step`; Lines
--               has the streams of lines that come in chunks
--   Text        helper/text.c: omaq_utf8_bytes_ok is `utf8_bytes_ok`
--   Wire        the packers and unpackers of helper/receipt.c and helper/message_action.c, and the
--               tests of identifiers of helper/message.c; a function keeps its name less the
--               prefix omaq_ and the word wire
--   Outbox      helper/receipt.c: the outbox of receipts in memory
--   Unread      helper/conversation.c: the counts of unread messages
--   Rate        helper/rate.c: the limiters. Rate/Sliding is omaq_rate_allow; Rate/Windows the
--               limiter of control packets, Offers and Messages below it the others with fixed
--               windows; Budget and the Limits are the proofs
--   GroupFile   helper/group_file.c: the control packets and the pieces of a file
--   Roles       helper/roles.c: the permissions in groups
--   Safety      helper/safety.c: the safety code of two keys
--   Calls       helper/av.c: the state of a call and of its audio. Rings are the rings of frames,
--               omaq_av_note_incoming is `note_incoming`, and so on; Reached is any run of events
--   FileNames   helper/file.c: the tests of names and paths, and the identifiers of transfers
--   Transfers   helper/file.c: the tables of transfers (xf), offers (of) and reports of progress.
--               Table is their search (xf_find, of_find), Begin what begins transfers, Marks
--               omaq_file_progress_due; omaq_file_chunk_in is `chunk_in`, and so on. Reached is any
--               run of calls; FreshNumbers are the runs that begin no transfer under a number in
--               use, which neither this code nor its callers test
--   Json        helper/json_io.c: omaq_json_escape is `json_escape`, omaq_json_parse_op is
--               `json_parse_op`; Validate has validate_string
--   Tests       runs on concrete inputs, and instances of the theorems
--
-- Conventions. A function that writes to its arguments returns their new values; a pointer that
-- the code tests for null is taken to point to something, unless a file says otherwise. A C string
-- is the list of its bytes without the terminator, an array with a length the list of its used
-- elements. Results of 0 and -1 are Booleans, options or a type of their own. Numbers are natural
-- numbers, signed ones `ℤ`; where an unsigned number of the code could wrap round, the model wraps
-- it or compares as the code does. Time, memory and the transport are arguments.
--
-- Bounds and fuel. `utf8_from` gets one more than the bytes of the text, and each round takes one.
-- `service_loop`, `fail_send_queue` and `send_queue_owner_disconnect` get their fuel as an
-- argument; 65 rounds are enough for the 64 slots, since each round removes an entry or puts a
-- friend on the list of those to skip. `double_until` gets 65, as a capacity doubles at most 64
-- times below 2 ^ 64. The pump of a call gets 17 rounds, one more than the frames of a ring; the
-- loop over captured samples a round for each sample; `name_from` and `read_pairs` one more than
-- the bytes, of which each round takes one at least. `print_decimal` prints at most 20 digits, as
-- 2 ^ 64 has.
--
-- Not modelled: files, locks, processes and sockets; toxcore, libsodium and the Signal library and
-- the adapters around them; the streams of PulseAudio and images; the commands of helper/omaq.c but
-- those named; the shell in QML and JavaScript, and the tools in Python.
pub mod Prelude
pub mod SendQueue
pub mod Text
pub mod LineReader
pub mod Wire
pub mod Rate
pub mod Transfers
pub mod Unread
pub mod Roles
pub mod Safety
pub mod Outbox
pub mod Calls
pub mod FileNames
pub mod GroupFile
pub mod Json
mod Tests
