-- ===== src/Poll/Descriptors.antt =====
-- Registrations of file descriptors, and the size of the array of callbacks.
use fast_cgi_rest_api.Common.{ℕ, ◌≡◌, refl, Bool, true, false, [], Rc, ok, failed, done, fault}
use fast_cgi_rest_api.Common.Sys.{Floats}
use fast_cgi_rest_api.Poll.{
  Entry, State, Allocs, main_poll_maybe_grow, write_entry, fd_add, glob_fd_add, poll_init,
  poll_deinit,
}

module _ ⦃fl : Floats⦄ where
  -- Every lock and allocation succeeds.
  abbrev pub plenty : Allocs
  plenty = record { lock = ok; poll = true; callbacks = true }

  abbrev pub starting : State
  starting = record {
    initialized = false;
    entries = [];
    main_poll_max_len = 0;
    poll_bytes = 0;
    callback_bytes = 0;
    locked = false;
    should_stop = false;
  }

  -- From the start on with memory, the array of callbacks has room for two: after `fra_p_poll_init` and
  -- one more registration, the next one writes beyond the array.
  pub fd_add-poll_init :
      (handle_new : ℕ) (e d : Entry)
      → (s t : State) × (poll_init ok ok true true plenty starting handle_new ≡ done (ok, s))
        × (fd_add plenty s e ≡ done (ok, t))
        × (fd_add plenty t d ≡ fault)
  unfolding poll_init glob_fd_add fd_add write_entry main_poll_maybe_grow
  fd_add-poll_init handle_new e d = (_, _, refl, refl, refl)

  -- After `fra_p_poll_deinit`, or when it was called before, `fra_p_poll_init` fails, whatever the
  -- allocations return, since nothing resets `initialized`.
  pub poll_init-poll_deinit :
      (unlocked : Rc) (poll callbacks : Bool) (m : Allocs) (s : State) (handle_new : ℕ)
      → s.initialized ≡ true
      → s.locked ≡ false
      → poll_init ok unlocked poll callbacks m (poll_deinit s) handle_new
        ≡ done (failed, poll_deinit s)
  unfolding poll_init poll_deinit
  poll_init-poll_deinit unlocked poll callbacks m s handle_new i l = rw (i, l)
