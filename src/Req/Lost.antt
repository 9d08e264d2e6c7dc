-- ===== src/Req/Lost.antt =====
-- `fra_p_req_handle_new` where no connection is accepted: it prints to a stream that is NULL.
use fast_cgi_rest_api.Req.State.{Req, State}
