-- ===== src/Conf/Plugins/Fresh.antt =====
-- The plugins that `set_plugins` of src/conf.c adds have no handle.
use fast_cgi_rest_api.Common.{
  ℕ, suc, ◌≡◌, refl, Option, none, some, List, [], ◌∷◌, ◌++◌, Rc, ok, failed, Run, done, not, ◌&&◌,
  leb, All,
}
use fast_cgi_rest_api.Common.Sys.{Bytes}
use fast_cgi_rest_api.Pl.{Plugin, unset, pl_add}
use fast_cgi_rest_api.Conf.Values.{Token, is_string, is_array, has_parent, slice, State, alloc}
use fast_cgi_rest_api.Conf.Plugins.{
  Current, add_current, with_argument, read_argument, open_plugin, plugins_loop, set_plugins,
}
use fast_cgi_rest_api.Conf.Sound.{
  Sound, KeepsRun, done-Keeps, fault-Keeps, Sound-alloc, if-KeepsRun,
}

module _ (g : List Bytes) (a : List (List Bytes)) where
  -- The plugin that is read has no handle.
  abbrev IsFresh : Option Current → Type 0
  IsFresh none = Unit {0}
  IsFresh (some c) = c.pl.h ≡ unset

  All-snoc :
      (l : List Plugin) (p : Plugin)
      → All (λ (q : Plugin). q.h ≡ unset) l
      → p.h ≡ unset
      → All (λ (q : Plugin). q.h ≡ unset) (l ++ p ∷ [])
  All-snoc [] p h e = (e, tt)
  All-snoc (q ∷ l) p (h, hs) e = (h, All-snoc l p hs e)

  add_current-Sound :
      (cur : Option Current) (s : State) → IsFresh cur → Sound g a s → Sound g a (add_current cur s)
  unfolding add_current pl_add
  add_current-Sound none s fresh h = h
  add_current-Sound (some c) s fresh h = record {
    flag = h.flag;
    plugins = All-snoc s.plugins c.pl h.plugins fresh;
    strings = h.strings;
    arrs = h.arrs;
  }

  with_argument-IsFresh :
      (cur : Option Current) (arg : Bytes) → IsFresh cur → IsFresh (with_argument cur arg)
  with_argument-IsFresh none arg h = tt
  with_argument-IsFresh (some c) arg h = h

  -- What goes on from a current plugin.
  abbrev KeepsNext : (Option Current → State → Run (Rc × State)) → Type 0
  KeepsNext next =
      (cur : Option Current) (s : State) → IsFresh cur → Sound g a s → KeepsRun g a (next cur s)

  module _ (text : Bytes) (c : ℕ) (stop : ℕ) where
    read_argument-Keeps :
        (x : Token) (next : Option Current → State → Run (Rc × State))
        → KeepsNext next
        → KeepsNext λ cur s. read_argument text c stop x cur s next
    unfolding read_argument
    read_argument-Keeps x next h cur s fresh sound =
        let grown = Sound-alloc g a s sound in
        let made = Sound-alloc g a (alloc s).1 grown in
        if-KeepsRun g a _ _ _ (done-Keeps g a failed s sound) (
          if-KeepsRun g a _ _ _ (h _ _ (with_argument-IsFresh cur (slice text x) fresh) made)
            (done-Keeps g a failed _ made))

    open_plugin-Keeps :
        (k x : Token) (i : ℕ) (s : State) (next : Option Current → State → Run (Rc × State))
        → KeepsNext next
        → Sound g a s
        → KeepsRun g a (open_plugin text c stop k x i s next)
    unfolding open_plugin
    open_plugin-Keeps k x i s next h sound =
        let made = Sound-alloc g a (alloc s).1 (Sound-alloc g a s sound) in
        let fails = done-Keeps g a failed s sound in
        let pl : Plugin = record { name = slice text k; argv = []; h = unset } in
        let opened =
          h (some (record { pl = pl; cur_pl = suc i; stop = x.stop })) (alloc (alloc s).1).1 refl
            made in
        if-KeepsRun g a (not (has_parent k c && leb k.stop stop)) _ _ (done-Keeps g a ok s sound) (
          if-KeepsRun g a (is_string k.type && (has_parent x i && is_array x.type)) _ _
            (if-KeepsRun g a (alloc s).0 _ _
              (if-KeepsRun g a (alloc (alloc s).1).0 _ _ opened (fault-Keeps g a)) fails)
            fails)

    plugins_loop-Keeps : (toks : List Token) (i : ℕ) → KeepsNext (plugins_loop text c stop toks i)
    unfolding plugins_loop
    plugins_loop-Keeps [] i cur s fresh sound =
        done-Keeps g a ok _ (add_current-Sound cur s fresh sound)
    plugins_loop-Keeps (x ∷ []) i cur s fresh sound =
        let last : KeepsNext (λ cur' s'. done (ok, add_current cur' s')) =
          λ cur' s' f h. done-Keeps g a ok _ (add_current-Sound cur' s' f h) in
        if-KeepsRun g a _ _ _ (read_argument-Keeps x _ last cur s fresh sound)
          (last cur s fresh sound)
    plugins_loop-Keeps (x ∷ y ∷ toks) i cur s fresh sound =
        if-KeepsRun g a _ _ _
          (read_argument-Keeps x _ (plugins_loop-Keeps (y ∷ toks) (suc i)) cur s fresh sound)
          (open_plugin-Keeps x y i _ _ (plugins_loop-Keeps toks (suc (suc i)))
            (add_current-Sound cur s fresh sound))

  pub set_plugins-Keeps :
      (text : Bytes) (t : Token) (toks : List Token) (c : ℕ) (s : State)
      → Sound g a s
      → KeepsRun g a (set_plugins text t toks c s)
  unfolding set_plugins
  set_plugins-Keeps text t toks c s sound =
      if-KeepsRun g a _ _ _ (plugins_loop-Keeps text c t.stop toks (suc c) none s tt sound)
        (done-Keeps g a failed s sound)
