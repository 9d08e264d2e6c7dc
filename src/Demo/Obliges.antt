-- ===== src/Demo/Obliges.antt =====
-- The hooks of src/example/fra-server-example.c, if its callbacks return 0.
use fast_cgi_rest_api.Common.{ℕ, ◌≡◌, refl, false, none, some, [], ◌∷◌, Rc, ok, All, ◌==◌}
use fast_cgi_rest_api.Common.Sys.{Strings, Floats}
use fast_cgi_rest_api.Hook.{
  Hooks, HookType, req_incoming, req_created, end_store_created, req_before_fcgx,
  req_before_endpoint, req_new, req_free, end_store_free, glob_hook_execute, req_hook_execute,
  end_hook_execute, hook_execute, run_hooks,
}
use fast_cgi_rest_api.End.{End}
use fast_cgi_rest_api.Req.Succeeds.{Obliges}
use fast_cgi_rest_api.Demo.{Program}
use fast_cgi_rest_api.Demo.Calls.{new_hooks}
use fast_cgi_rest_api.Demo.Setup.{glob_list, req_list}

module _ ⦃st : Strings⦄ ⦃fl : Floats⦄ {W : Type 0} (call : ℕ → ℕ → W → Rc × W) where
  -- Every callback returns 0, as those of the example do.
  abbrev pub Polite : Type 0
  Polite = (addr cb : ℕ) (w : W) → (call addr cb w).0 ≡ ok

  run_hooks-ok :
      (addr : ℕ) (l : Hooks) (w : W)
      → Polite
      → All (λ h. (h.callback == 0) ≡ false) l
      → (run_hooks (call addr) l w).0 ≡ ok
  unfolding run_hooks
  run_hooks-ok addr [] w h set = refl
  run_hooks-ok addr (x ∷ l) w h (here, set) =
      rw (run_hooks, here, h addr x.callback w)
        (run_hooks-ok addr l (call addr x.callback w).1 h set)

  before_ok :
      (addr : ℕ) (l : Hooks) (type : HookType) (w : W)
      → Polite
      → All (λ h. (h.callback == 0) ≡ false) l
      → (req_hook_execute (call addr) (new_hooks l) none type w).0 ≡ ok
  unfolding req_hook_execute hook_execute run_hooks
  before_ok addr l req_created w h set = refl
  before_ok addr l end_store_created w h set = refl
  before_ok addr l req_before_fcgx w h set = refl
  before_ok addr l req_before_endpoint w h set = refl
  before_ok addr l req_new w h set = run_hooks-ok addr l w h set
  before_ok addr l req_free w h set = refl
  before_ok addr l end_store_free w h set = refl

  new_ok :
      (addr : ℕ) (l : Hooks) (w : W)
      → Polite
      → All (λ h. (h.callback == 0) ≡ false) l
      → (req_hook_execute (call addr) (new_hooks l) (some (new_hooks [])) req_new w).0 ≡ ok
  unfolding req_hook_execute end_hook_execute hook_execute run_hooks
  new_ok addr l w h set = run_hooks-ok addr l w h set

  incoming_ok :
      (l : Hooks) (w : W)
      → Polite
      → All (λ h. (h.callback == 0) ≡ false) l
      → (glob_hook_execute (call 0) (l ∷ []) req_incoming w).0 ≡ ok
  unfolding glob_hook_execute hook_execute
  incoming_ok l w h set = run_hooks-ok 0 l w h set

  module _ (p : Program) where
    pub req_list-Obliges :
        (e : End)
        → Polite
        → e.hooks ≡ new_hooks []
        → Obliges call (glob_list p ∷ []) (new_hooks (req_list p)) e
    req_list-Obliges e h plain = record {
      incoming = λ w.
          incoming_ok (glob_list p) w h
            (p.hello_world4_set, (p.hello_world3_set, (p.hello_world5_set, _)));
      before = λ addr type w.
          before_ok addr (req_list p) type w h (p.hello_world2_set, (p.hello_world_set, _));
      new = λ addr w.
          rw plain (new_ok addr (req_list p) w h (p.hello_world2_set, (p.hello_world_set, _)));
    }
