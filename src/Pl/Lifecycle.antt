-- ===== src/Pl/Lifecycle.antt =====
-- Loading the plugins, and unloading them afterwards.
use fast_cgi_rest_api.Common.{
  ℕ, ◌≡◌, refl, sym, ap, ◌∙◌, none, some, Option-cases, List, [], ◌∷◌, inl, inr, Rc, ok, failed,
  Rc-cases,
}
use fast_cgi_rest_api.Common.Sys.{Bytes}
use fast_cgi_rest_api.Pl.{Handle, null, opened, Plugin, Dl, h_cleanup, start, load_one, pl_load}

module _ {W : Type 0} (dl : Dl W) where
  -- A plugin that is loaded: its library is opened, the function that `argv` names is found in it and
  -- returns 0, and the handle of the library is kept. `w` and `w'` are what the linker and the
  -- functions work on, before and after.
  pub record Loaded (p : Plugin) (w : W) (p' : Plugin) (w' : W) : Type 0 where
    pub handle : ℕ
    pub opened_world : W
    pub opens : dl.dlopen p.name w ≡ (some handle, opened_world)
    pub main : Bytes
    pub args : List Bytes
    pub named : p.argv ≡ main ∷ args
    pub entry : ℕ
    pub found_world : W
    pub finds : dl.dlsym handle main opened_world ≡ (some entry, found_world)
    pub runs : dl.call entry p.argv found_world ≡ (ok, w')
    pub kept : p' ≡ record p { h = opened handle }

  -- Why the function of an open library has not returned 0.
  pub data Fails (p : Plugin) (h : ℕ) (w : W) : W → Type 0 where
    unnamed : p.argv ≡ [] → Fails p h w w
    missing :
        (f : Bytes) (args : List Bytes) (w' : W)
        → p.argv ≡ f ∷ args
        → dl.dlsym h f w ≡ (none, w')
        → Fails p h w w'
    refused :
        (f : Bytes) (args : List Bytes) (s : ℕ) (v w' : W)
        → p.argv ≡ f ∷ args
        → dl.dlsym h f w ≡ (some s, v)
        → dl.call s p.argv v ≡ (failed, w')
        → Fails p h w w'

  -- The handle that a failed plugin is left with, by what `dlclose` returned.
  abbrev pub left : Rc → ℕ → Handle
  left ok h = null
  left failed h = opened h

  -- A plugin that is not loaded: its library is not opened, or it is opened and `dlclose` is called for it.
  pub data Stops (p : Plugin) (w : W) : Plugin → W → Type 0 where
    not_opened : (w' : W) → dl.dlopen p.name w ≡ (none, w') → Stops p w (record p { h = null }) w'
    given_up :
        (h : ℕ) (u v : W)
        → dl.dlopen p.name w ≡ (some h, u)
        → Fails p h u v
        → Stops p w (record p { h = left (dl.dlclose (some h) v).0 h }) (dl.dlclose (some h) v).1

  -- A run of `fra_p_pl_load`: each plugin is loaded, up to one that is not; the ones behind it stay as
  -- they are.
  pub data Loads : List Plugin → W → Rc → List Plugin → W → Type 0 where
    end_reached : (w : W) → Loads [] w ok [] w
    next :
        {p p' : Plugin} {l l' : List Plugin} {rc : Rc} {w v u : W}
        → Loaded p w p' v
        → Loads l v rc l' u
        → Loads (p ∷ l) w rc (p' ∷ l') u
    stopped :
        {p p' : Plugin} {w v : W} (l : List Plugin)
        → Stops p w p' v
        → Loads (p ∷ l) w failed (p' ∷ l) v

  -- The outcomes of one turn of the loop.
  abbrev Turn : Plugin → W → Rc → Plugin → W → Type 0
  Turn p w ok p' w' = Loaded p w p' w'
  Turn p w failed p' w' = Stops p w p' w'

  h_cleanup-Turn :
      (c : Plugin) (h : ℕ) (w u v : W)
      → dl.dlopen c.name w ≡ (some h, u)
      → Fails c h u v
      → let r = h_cleanup dl c h v in Turn c w r.0 r.1 r.2
  unfolding h_cleanup
  h_cleanup-Turn c h w u v found why =
      let a : Stops c w (record c { h = left (dl.dlclose (some h) v).0 h })
          (dl.dlclose (some h) v).1 =
        given_up h u v found why in
      elim (Rc-cases (dl.dlclose (some h) v).0) [
        | inl e ↦ simp (h_cleanup, e) (rw e at a)
        | inr e ↦ simp (h_cleanup, e) (rw e at a)
      ]

  start-Turn :
      (c : Plugin) (argv : List Bytes) (h : ℕ) (w u : W)
      → dl.dlopen c.name w ≡ (some h, u)
      → c.argv ≡ argv
      → let r = start dl c h u in Turn c w r.0 r.1 r.2
  unfolding start
  start-Turn c [] h w u found e = simp (start, e) (h_cleanup-Turn c h w u u found (unnamed e))
  start-Turn c (f ∷ args) h w u found e =
      let y = dl.dlsym h f u in
      elim (Option-cases y.0) [
        | inl none_found ↦
            simp (start, e, none_found)
              (h_cleanup-Turn c h w u y.1 found
                (missing f args y.1 e (ap (λ o. (o, y.1)) none_found)))
        | inr (s, symbol) ↦
            let r = dl.call s (f ∷ args) y.1 in
            let finds : dl.dlsym h f u ≡ (some s, y.1) = ap (λ o. (o, y.1)) symbol in
            let same : dl.call s c.argv y.1 ≡ r = ap (λ a. dl.call s a y.1) e in
            elim (Rc-cases r.0) [
              | inl good ↦
                  simp (start, e, symbol, good)
                    (record {
                      handle = h;
                      opened_world = u;
                      opens = found;
                      main = f;
                      args = args;
                      named = e;
                      entry = s;
                      found_world = y.1;
                      finds = finds;
                      runs = same ∙ ap (λ k. (k, r.1)) good;
                      kept = ap (λ a. record c { argv = a; h = opened h }) (sym e);
                    })
              | inr bad ↦
                  simp (start, e, symbol, bad)
                    (h_cleanup-Turn c h w u r.1 found
                      (refused f args s y.1 r.1 e finds (same ∙ ap (λ k. (k, r.1)) bad)))
            ]
      ]

  load_one-Turn : (c : Plugin) (w : W) → let r = load_one dl c w in Turn c w r.0 r.1 r.2
  unfolding load_one
  load_one-Turn c w =
      let o = dl.dlopen c.name w in
      elim (Option-cases o.0) [
        | inl none_found ↦
            rw (load_one, none_found) (not_opened o.1 (ap (λ x. (x, o.1)) none_found))
        | inr (h, found) ↦
            rw (load_one, found) (start-Turn c c.argv h w o.1 (ap (λ x. (x, o.1)) found) refl)
      ]

  -- `fra_p_pl_load` on every branch, from any list of plugins on. For one after another it opens the
  -- library of the plugin's name, finds in it the function that the first element of `argv` names, and
  -- calls that with `argv`; while each of these is found and returns 0 the plugin keeps the handle that
  -- `dlopen` returned, and at the end of the list it returns 0. At the first plugin for
  -- which one of these fails it returns -1, with `dlclose` called for the handle if the library was opened:
  -- the handle is then NULL or, if `dlclose` failed, kept; the plugins behind stay as they are.
  pub pl_load-Loads :
      (first : List Plugin) (w : W) → let r = pl_load dl first w in Loads first w r.0 r.1 r.2
  unfolding pl_load
  pl_load-Loads [] w = end_reached w
  pl_load-Loads (c ∷ rest) w =
      let r = load_one dl c w in
      let turn = load_one-Turn c w in
      elim (Rc-cases r.0) [
        | inl good ↦ rw (pl_load, good) (next (rw good at turn) (pl_load-Loads rest r.2))
        | inr bad ↦ rw (pl_load, bad) (stopped rest (rw bad at turn))
      ]
