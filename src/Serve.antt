-- ===== src/Serve.antt =====
-- The processing of a parsed request, from src/mk_request.c, src/mk_http.c, src/mk_user.c and the stages
-- of src/mk_plugin.c; what is done to the outside is a log of actions.
pub mod Plugins
pub mod Errors
pub mod Users
pub mod Static
pub mod Init
pub mod Process
pub mod Write
pub mod Known
pub mod Polite
pub mod Answered
pub mod Completed
pub mod Opens
pub mod Backward
pub mod Permitted
pub mod Responses
pub mod Announced
pub mod Order
pub mod Unsent
