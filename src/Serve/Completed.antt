-- ===== src/Serve/Completed.antt =====
-- mk_request_process of src/mk_request.c: when it returns, and the statuses of its responses.
use monkey.Serve.Known.{Known}
