-- ===== src/Poll.antt =====
-- src/poll.c: the file descriptors that are polled, with their callbacks, in two arrays that grow
-- together under one mutex. The sizes are those of a 64-bit machine. To lock the mutex twice, or to
-- unlock it when it is not locked, is undefined, and so is a write beyond an array.
pub mod Descriptors
pub mod Loop
pub mod Rounds
pub mod Refinement
pub mod Invariant
pub mod Held
use fast_cgi_rest_api.Common.{
  ℕ, ◌+◌, ◌-◌, ◌*◌, Bool, true, false, not, ◌&&◌, ◌||◌, Option, none, some, List, [], ◌∷◌, ◌++◌, Rc,
  ok, failed, Run, done, fault, ◌>>=◌, length, ltb, leb, ◌==◌, if◌then◌else◌,
}
use fast_cgi_rest_api.Common.Int.{pos}
use fast_cgi_rest_api.Common.Sys.{Floats}

-- An index of both arrays: a `struct pollfd` and its `struct callback`, whose union holds the callback
-- for a request if there is one, else the other.
pub record Entry : Type 0 where
  pub fd : ℕ
  pub events : ℕ
  pub req : Option ℕ
  pub cb : ℕ

-- `entries` are the first `main_poll_len` ones. The sizes of the two arrays are in bytes.
pub record State : Type 0 where
  pub initialized : Bool
  pub entries : List Entry
  pub main_poll_max_len : ℕ
  pub poll_bytes : ℕ
  pub callback_bytes : ℕ
  pub locked : Bool
  pub should_stop : Bool

abbrev pub size_int : ℕ
size_int = 4

abbrev pub size_pollfd : ℕ
size_pollfd = 8

abbrev pub size_callback : ℕ
size_callback = 16

abbrev pub initial_size : ℕ
initial_size = 10

abbrev pub pollin : ℕ
pollin = 1

-- What `pthread_mutex_lock` returns, and whether the two calls of `realloc` succeed.
pub record Allocs : Type 0 where
  pub lock : Rc
  pub poll : Bool
  pub callbacks : Bool

abbrev pub unlock : State → State
unlock s = record s { locked = false }

-- `main_poll_maybe_grow`
unfoldable pub main_poll_maybe_grow : ⦃fl : Floats⦄ → Allocs → State → Rc × State
main_poll_maybe_grow ⦃fl⦄ m s =
    let max_len = s.main_poll_max_len in
    let new_max = fl.to_int (fl.grow (fl.of_int (pos max_len))) in
    let wider : State = record s { poll_bytes = new_max * size_pollfd } in
    let grown : Rc × State =
      if not (ltb max_len new_max)
      then (failed, s)
      else if not m.poll
      then (failed, s)
      else if m.callbacks
      then (
        ok,
        record wider { callback_bytes = new_max * size_pollfd; main_poll_max_len = new_max },
      )
      else (failed, wider) in
    if not (ltb (length s.entries) max_len)
    then (failed, s)
    else if length s.entries == max_len - 1
    then grown
    else (ok, s)

-- The writes of `fd_add`, and the unlocking.
unfoldable pub write_entry : State → Entry → Run (Rc × State)
write_entry s e =
    let needed = length s.entries + 1 in
    if leb (needed * size_pollfd) s.poll_bytes && leb (needed * size_callback) s.callback_bytes
    then done (ok, unlock (record s { entries = s.entries ++ e ∷ [] }))
    else fault

-- `fd_add`; `fra_req_fd_add` and `fra_glob_fd_add` call it with an entry of theirs.
unfoldable pub fd_add : ⦃fl : Floats⦄ → Allocs → State → Entry → Run (Rc × State)
fd_add m s e =
    let (rc, s') = main_poll_maybe_grow m (record s { locked = true }) in
    let added : Run (Rc × State) = elim rc [
      | failed ↦ done (failed, unlock s')
      | ok ↦ write_entry s' e
    ] in
    let entered : Run (Rc × State) =
      if s.locked then fault else if s.initialized then added else done (failed, s) in
    elim m.lock [ failed ↦ done (failed, s) | ok ↦ entered ]

unfoldable pub req_fd_add :
    ⦃fl : Floats⦄ → Allocs → State → (req fd events cb : ℕ) → Run (Rc × State)
unfolding fd_add
req_fd_add m s req fd events cb =
    fd_add m s (record { fd = fd; events = events; req = some req; cb = cb })

unfoldable pub glob_fd_add : ⦃fl : Floats⦄ → Allocs → State → (fd events cb : ℕ) → Run (Rc × State)
unfolding fd_add
glob_fd_add m s fd events cb = fd_add m s (record { fd = fd; events = events; req = none; cb = cb })

-- `fra_p_poll_init`, for the address of `fra_p_req_handle_new`: what the two calls of `malloc` and the
-- unlocking return, and the allocations of the call of `fra_glob_fd_add`. If that fails, the mutex is
-- unlocked twice.
unfoldable pub poll_init :
    ⦃fl : Floats⦄
    → (lock unlocked : Rc) → (poll callbacks : Bool) → Allocs
    → State
    → ℕ
    → Run (Rc × State)
poll_init lock unlocked poll callbacks m s handle_new =
    let made : State = record s {
      initialized = true;
      entries = [];
      main_poll_max_len = initial_size;
      poll_bytes = initial_size * size_pollfd;
      callback_bytes = initial_size * size_int;
      locked = false;
    } in
    let first : Run (Rc × State) =
      glob_fd_add m made 0 pollin handle_new >>= λ r. elim r.0 [ ok ↦ done r | failed ↦ fault ] in
    let allocated : Run (Rc × State) = elim unlocked [
      | ok ↦ first
      | failed ↦ done (failed, record made { locked = true })
    ] in
    let entered : Run (Rc × State) =
      if s.locked
      then fault
      else if s.initialized || not (poll && callbacks)
      then done (failed, s)
      else allocated in
    elim lock [ failed ↦ done (failed, s) | ok ↦ entered ]

-- `fra_p_poll_deinit`
unfoldable pub poll_deinit : State → State
poll_deinit s = record s { poll_bytes = 0; callback_bytes = 0 }
