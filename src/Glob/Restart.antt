-- ===== src/Glob/Restart.antt =====
-- The library after `fra_glob_init` and `fra_glob_deinit` of src/glob.c.
use fast_cgi_rest_api.Common.{
  ℕ, ◌≡◌, refl, Bool, true, false, Option, none, some, List, [], ◌∷◌, arith, Rc, ok, failed, Run,
  done, fault, ◌>>=◌, Rc-cases, subst, inl, inr, length, map, ap, flatten,
}
use fast_cgi_rest_api.Common.Sys.{Floats}
use fast_cgi_rest_api.Req.State.{Req}
use fast_cgi_rest_api.Glob.{
  Lib, Inits, Freed, init_hooks, glob_init, glob_deinit, req_deinit, var_deinit,
}
use fast_cgi_rest_api.Ht
use fast_cgi_rest_api.Ht.{Ht}
use fast_cgi_rest_api.Common.Sys.{Bytes}
use fast_cgi_rest_api.Hook
use fast_cgi_rest_api.Hook.{
  Table, new_table, glob_hook_count, hook_count, req_hook_execute, req_free,
}
use fast_cgi_rest_api.Hook.Free.{free-flatten}
use fast_cgi_rest_api.Poll.Descriptors.{poll_init-poll_deinit}
use fast_cgi_rest_api.Url
use fast_cgi_rest_api.Poll
use fast_cgi_rest_api.Poll.{
  poll_init, glob_fd_add, poll_deinit, fd_add, write_entry, main_poll_maybe_grow,
}

module _ ⦃fl : Floats⦄ where
  poll_init-ok :
      (lock unlocked : Rc) (poll callbacks : Bool) (m : Poll.Allocs) (s t : Poll.State)
      (handle_new : ℕ)
      → poll_init lock unlocked poll callbacks m s handle_new ≡ done (ok, t)
      → (t.initialized ≡ true) × (t.locked ≡ false)
  unfolding poll_init glob_fd_add fd_add write_entry main_poll_maybe_grow
  poll_init-ok lock unlocked poll callbacks m s t handle_new e = ground (arith, e)

  -- The tables of hooks of a new library.
  abbrev no_hooks : Table × Table
  no_hooks = (new_table glob_hook_count, new_table hook_count)

  init_hooks-ok :
      (m : Inits) (s l : Lib)
      → init_hooks m s ≡ (ok, l)
      → (l.poll ≡ s.poll) × (l.hooks ≡ some no_hooks)
  unfolding init_hooks Hook.init
  init_hooks-ok m s l e = ground (arith, e)

  -- A library that was started: the poll loop can be used, and there are two tables of hooks.
  pub record IsStarted (l : Lib) (glob_hooks req_hooks : Table) : Type 0 where
    pub initialized : l.poll.initialized ≡ true
    pub unlocked : l.poll.locked ≡ false
    pub hooks : l.hooks ≡ some (glob_hooks, req_hooks)
    pub globs : length glob_hooks ≡ glob_hook_count
    pub reqs : length req_hooks ≡ hook_count

  pub glob_init-IsStarted :
      (m : Inits) (handle_new : ℕ) (s l : Lib)
      → glob_init m handle_new s ≡ done (ok, l)
      → IsStarted l (new_table glob_hook_count) (new_table hook_count)
  unfolding glob_init new_table
  glob_init-IsStarted m handle_new s l e =
      go (poll_init m.lock m.unlocked m.poll m.callbacks m.fd_add s.poll handle_new) refl e
    where
      go :
          (r : Run (Rc × Poll.State))
          → poll_init m.lock m.unlocked m.poll m.callbacks m.fd_add s.poll handle_new ≡ r
          → (r >>= λ p. elim p.0 [
            | ok ↦ done (init_hooks m (record s { poll = p.1 }))
            | failed ↦ done (failed, record s { poll = p.1 })
          ])
            ≡ done (ok, l)
          → IsStarted l (new_table glob_hook_count) (new_table hook_count)
      go fault q e = absurd (cc e)
      go (done (failed, t)) q e = absurd (cc e)
      go (done (ok, t)) q e =
          let made : init_hooks m (record s { poll = t }) ≡ (ok, l) = cc e in
          let (kept, tables) = init_hooks-ok m (record s { poll = t }) l made in
          let (i, u) =
            poll_init-ok m.lock m.unlocked m.poll m.callbacks m.fd_add s.poll t handle_new q in
          record {
            initialized = rw kept i;
            unlocked = rw kept u;
            hooks = tables;
            globs = refl;
            reqs = refl;
          }

  req_deinit-addr :
      {W : Type 0} (call : ℕ → ℕ → W → Rc × W) (req_hooks : Table) (reqs : List Req) (w : W)
      → (req_deinit call req_hooks reqs w).0 ≡ map (λ (r : Req). r.addr) reqs
  unfolding req_deinit
  req_deinit-addr call req_hooks [] w = refl
  req_deinit-addr call req_hooks (r ∷ reqs) w =
      ap (λ l. r.addr ∷ l)
        (req_deinit-addr call req_hooks reqs
          (req_hook_execute (call r.addr) req_hooks none req_free w).1)

  fails_again :
      (m : Inits) (handle_new : ℕ) (l : Lib)
      → l.poll.initialized ≡ true
      → l.poll.locked ≡ false
      → (urls : Option Url.Table)
      → let l' : Lib = record l { urls = urls; empty_req = []; poll = poll_deinit l.poll } in
        glob_init m handle_new l' ≡ done (failed, l')
  unfolding glob_init poll_init
  fails_again m handle_new l i u urls = elim (Rc-cases m.lock) [
    | inl e ↦
        rw
          (
            glob_init,
            e,
            poll_init-poll_deinit m.unlocked m.poll m.callbacks m.fd_add l.poll handle_new i u,
          )
          refl
    | inr e ↦ rw (glob_init, e) refl
  ]

  -- The elements of all buckets of a table, if there is one.
  abbrev pub elements : {A V : Type 0} → Option (Ht A V) → List (Bytes × V)
  elements none = []
  elements (some t) = flatten t.buck

  free-elements : {A V : Type 0} (t : Option (Ht A V)) → Ht.free t ≡ elements t
  unfolding Ht.free
  free-elements none = refl
  free-elements (some t) = refl

  -- The end of a library that was started, with whatever hooks, urls, variables and pooled requests it
  -- has then: two tables of hooks of the sizes of `fra_p_hook_init`, and a free mutex. `fra_glob_deinit`
  -- returns. It frees each pooled request once, the hooks of all lists, and the elements of all buckets of
  -- the urls and of the global variables, if there are such tables. The library then has no urls and no
  -- pooled request. After it `fra_glob_init` fails, whatever the allocations and the mutex return.
  pub glob_deinit-IsStarted :
      {W : Type 0} (call : ℕ → ℕ → W → Rc × W) (l : Lib) (w : W) (m : Inits) (handle_new : ℕ)
      (glob_hooks req_hooks : Table)
      → IsStarted l glob_hooks req_hooks
      → (freed : Freed) × (l' : Lib) × (w' : W) × (glob_deinit call l w ≡ done (freed, l', w'))
        × (freed.requests ≡ map (λ (r : Req). r.addr) l.empty_req)
        × (freed.hooks ≡ (flatten glob_hooks, flatten req_hooks))
        × (freed.urls ≡ elements l.urls)
        × (freed.vars ≡ elements l.vars)
        × (l'.urls ≡ none)
        × (l'.empty_req ≡ [])
        × (glob_init m handle_new l' ≡ done (failed, l'))
  unfolding glob_deinit Hook.deinit Url.deinit var_deinit
  glob_deinit-IsStarted call l w m handle_new glob_hooks req_hooks h =
      let globs : Hook.free glob_hooks glob_hook_count ≡ done (flatten glob_hooks) =
        subst (λ n. Hook.free glob_hooks n ≡ done (flatten glob_hooks)) h.globs
          (free-flatten glob_hooks) in
      let reqs : Hook.free req_hooks hook_count ≡ done (flatten req_hooks) =
        subst (λ n. Hook.free req_hooks n ≡ done (flatten req_hooks)) h.reqs
          (free-flatten req_hooks) in
      let r = req_deinit call req_hooks l.empty_req w in
      let freed : Freed = record {
        urls = (Url.deinit l.urls).1;
        requests = r.0;
        vars = var_deinit l.vars;
        hooks = (flatten glob_hooks, flatten req_hooks);
      } in
      let after : Lib = record l {
        urls = (Url.deinit l.urls).0;
        empty_req = [];
        poll = poll_deinit l.poll;
      } in
      (
        freed,
        after,
        r.1,
        rw (glob_deinit, h.hooks, Hook.deinit, globs, reqs)
            (ap (λ k. done (freed, record after { hooks = k }, r.1)) h.hooks),
        req_deinit-addr call req_hooks l.empty_req w,
        refl,
        free-elements l.urls,
        free-elements l.vars,
        refl,
        refl,
        fails_again m handle_new l h.initialized h.unlocked (Url.deinit l.urls).0,
      )
