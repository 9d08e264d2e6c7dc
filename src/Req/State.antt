-- ===== src/Req/State.antt =====
-- The state that the handling of a request works on, and what it gets from outside.
use fast_cgi_rest_api.Common.{
  ℕ, Bool, Option, none, some, List, [], ◌∷◌, ◌++◌, Rc, Run, done, fault, ◌>>=◌, get_elem?,
  if◌then◌else◌,
}
use fast_cgi_rest_api.Common.Sys.{Bytes, Floats}
use fast_cgi_rest_api.Hook.{Table, HookType, req_hook_execute}
use fast_cgi_rest_api.End.{End}
use fast_cgi_rest_api.Url

-- `struct fra_req`. An endpoint is its place in the list of endpoints; `addr` is the address of the
-- request. The strings are set by `set_param` and `set_url` before they are read.
pub record Req : Type 0 where
  pub addr : ℕ
  pub fcgx_defined : Bool
  pub endpoint : Option ℕ
  pub endpoint_store : Option ℕ

-- `fra_req_fcgx`, the address of the request standing for that of its connection, and
-- `fra_req_endpoint`.
unfoldable pub fcgx : Req → Option ℕ
fcgx req = if req.fcgx_defined then some req.addr else none

unfoldable pub req_endpoint : Req → Option ℕ
req_endpoint req = req.endpoint

-- The calls of the fcgi library, and the answers that are written.
pub data Event : Type 0 where
  init_request accepted go_away finish : Event
  -- the throwaway request of `exit_request`, from its initialisation to its end
  turned_away : Event
  -- the callback of the endpoint of this index
  handled : ℕ → Event

-- `W` is what callbacks read and write.
pub record State ⦃fl : Floats⦄ (W : Type 0) : Type 0 where
  pub glob_hooks : Table
  pub req_hooks : Table
  pub urls : Url.Table
  pub ends : List End
  pub empty_req : List Req
  pub empty_count : ℕ
  pub all_count : ℕ
  pub events : List Event
  pub world : W

-- What one run of the handler gets from outside: the events of the descriptor, whether its `FCGX_Accept_r`
-- and that of `exit_request` succeed, so that there is a stream to print to, the parameters, and what `malloc` returns for a request and for a block of variables. A new
-- request holds whatever the memory held.
pub record Input : Type 0 where
  pub pollin : Bool
  pub accepts : Bool
  pub turned_accepts : Bool
  pub method : Option Bytes
  pub uri : Option Bytes
  pub request : Option Req
  pub block : Option ℕ

module _ ⦃fl : Floats⦄ {W : Type 0} where
  abbrev pub emit : Event → State W → State W
  emit e s = record s { events = s.events ++ e ∷ [] }

  -- The hooks of the endpoint of a request. A pointer to no endpoint is not read.
  unfoldable pub hooks_of : State W → Option ℕ → Run (Option Table)
  hooks_of s none = done none
  hooks_of s (some i) = elim (get_elem? s.ends i) [ none ↦ fault | some e ↦ done (some e.hooks) ]

  -- `fra_p_req_hook_execute`; a callback gets the address of the request.
  unfoldable pub run_hooks : (ℕ → ℕ → W → Rc × W) → State W → Req → HookType → Run (Rc × State W)
  run_hooks call s req type = do
    hooks ← hooks_of s req.endpoint
    let r = req_hook_execute (call req.addr) s.req_hooks hooks type s.world
    done (r.0, record s { world = r.1 })
