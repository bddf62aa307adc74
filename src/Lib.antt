-- ===== src/Lib.antt =====
-- Monkey, an HTTP server: its request handling and its scheduler.
--
-- The main thread accepts connections and gives each to the worker of least load (src/mk_scheduler.c).
-- A worker registers the connection, reads bytes into the buffer of a session (mk_handler_read of
-- src/mk_request.c) until mk_http_pending_request of src/mk_http.c says that the whole request is
-- there, parses the request line and headers, answers, and at the end either closes the connection or
-- keeps the session for the next request (mk_http_request_end).
--
-- Files, each with its laws in the modules below it:
-- - Prelude: Boolean tests, lists and integers over the native numbers.
-- - Libc: the C library functions that the code uses on bytes: memchr, strstr, strncmp, strtol,
--   bsearch.
-- - Text (src/mk_string.c): searches, substrings, splitting into words, trimming.
-- - Url (src/mk_utils.c): hexadecimal numbers, mk_utils_url_decode, mk_buffer_cat.
-- - Types (src/include): mk_pointer, the structs of request, session, response and configuration,
--   mk_request_init, mk_header_response_reset.
-- - Toc (src/mk_request.c): mk_request_header_toc_parse and mk_request_header_get.
-- - Http (src/mk_http.c): Methods for methods and versions, Range for mk_http_range_parse and
--   mk_http_range_set, Send for mk_http_send_file, Pending for mk_http_pending_request.
-- - MethodData (src/mk_method.c): the length and the type of the data of a POST or PUT request.
-- - Sched (src/mk_scheduler.c): the balance of connections and the two queues of a worker; Sched/Reach
--   has the steps of a worker over time.
-- - Session (src/mk_request.c, src/mk_http.c): sessions, the request buffer, and keep-alive.
-- - Request (src/mk_request.c): mk_request_parse, and in Request/Header mk_request_header_process, with
--   Blocks, Single, Line, Outcome and Processed for what they make of a text.
-- - Response (src/mk_header.c): mk_header_send over an I/O vector; Http/Status has the status lines.
-- - Site (src/mk_config.c, src/mk_file.c): the virtual hosts and mk_config_host_find, the system calls on
--   files and mk_file_get_info.
-- - Mime (src/mk_mimetype.c): the tables of types and their lookup; Order has the order of the
--   names, Lookup the search in the sorted table, Files the type of a file.
-- - Serve: the answer to a parsed request. Plugins has the actions and the stages of src/mk_plugin.c, Errors
--   mk_request_error, Users mk_user_init of src/mk_user.c, Static and Init mk_http_init of src/mk_http.c,
--   Process mk_request_process, and Write mk_handler_write. Known, Polite, Answered and Completed are about
--   statuses, Opens, Backward and Permitted about the files that are opened, Responses, Announced, Order
--   and Unsent about what is sent.
-- - Worker (src/mk_connection.c, mk_sched_check_timeouts of src/mk_scheduler.c): a worker thread with its
--   node and sessions, and the handlers of a connection's events; Write has mk_conn_write.
-- - Epoll (src/mk_epoll.c): the states of the descriptors of a worker, mk_epoll_change_mode, and a round of
--   the loop over its events.
-- - Events (src/mk_plugin.c): the sockets that plugins register, and whom an event is given to.
-- - Config (src/mk_config.c): the configuration files and the lookup in their sections. Counted and Sections are
--   about what is accepted, Printed, Lines, File and RoundTrip about printed files.
-- - Mandril (plugins/mandril/mandril.c): the rules of a plugin on addresses and URIs.
-- - Date (src/mk_utils.c): mk_utils_utime2gmt and the thread's cache of formatted dates.
-- - Tests: the theorems at concrete inputs.
--
-- How the code is read. A buffer is the list of its bytes before the NUL that ends it; a pointer into
-- it is an offset, or the rest of the buffer from there. A C `int` or `long` that may be negative is an
-- integer; an `unsigned long` difference wraps at 2^64, and a value that is stored in an `int` wraps at
-- 2^32. A function's changes to a struct are its result. Reads, sendfile, epoll and the plugins'
-- verdicts are arguments of the functions that call them. Memory allocation succeeds, but for the
-- reallocation that mk_handler_read checks.
--
-- Loops are recursions on the text or on a count that the source has too: the rows of the table of
-- contents (MK_HEADERS_TOC_LEN), the length that a search is given. The loop of mk_string_split_line
-- takes its fuel from the length of the line plus one, and each round moves on by a byte at least; that of
-- mk_request_parse takes `body_pos_end` plus two, and a block begins three bytes behind the one before or
-- later. Undefined behaviour in mk_request_header_process is the result `none`, in
-- mk_config_create the result `undefined`.
--
-- The processing of a request gives a log of what it does outside: responses that mk_header_send starts,
-- pages, files that are opened, parts of files that are sent, and the cork. The system calls on files are
-- functions of their arguments, since one event sees the files as they are; a plugin's callback is a
-- function of session and request that gives an answer, a request and a log.
--
-- Not modelled: what the server takes from its configuration files; the other plugins, whose callbacks are
-- arguments; and what only wraps system calls (sockets, threads, signals, the clock).
pub mod Prelude
pub mod Libc
pub mod Text
pub mod Url
pub mod Types
pub mod Toc
pub mod Http
pub mod Sched
pub mod MethodData
pub mod Session
pub mod Response
pub mod Site
pub mod Mime
pub mod Serve
pub mod Epoll
pub mod Events
pub mod Config
pub mod Mandril
pub mod Request
pub mod Worker
pub mod Date
pub mod Tests
