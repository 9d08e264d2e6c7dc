-- ===== src/Conf/Plugins.antt =====
-- `set_plugins` of src/conf.c: the plugins that the tokens of an object describe. The two loops are one
-- recursion on the tokens, in which `cur` is the plugin whose arguments are read.
pub mod Spans
pub mod Described
pub mod Fresh
use fast_cgi_rest_api.Common.{
  ℕ, zero, suc, Bool, true, false, ◌&&◌, not, Option, none, some, List, [], ◌∷◌, ◌++◌, Rc, ok,
  failed, length, ltb, leb, ◌==◌, if◌then◌else◌, Run, done, fault,
}
use fast_cgi_rest_api.Common.Sys.{Bytes}
use fast_cgi_rest_api.Pl.{Plugin, unset, pl_add}
use fast_cgi_rest_api.Conf.Values.{
  Token, has_parent, is_string, is_array, is_object, slice, State, alloc,
}

-- A plugin whose arguments are read: `cur_pl`, and the end of its array.
pub record Current : Type 0 where
  pub pl : Plugin
  pub cur_pl : ℕ
  pub stop : ℕ

unfoldable pub add_current : Option Current → State → State
unfolding pl_add
add_current none s = s
add_current (some c) s = record s { plugins = pl_add s.plugins c.pl }

-- `t[i].parent == cur_pl && t[i].end <= t[ cur_pl ].end`, while there is a current plugin
abbrev pub is_argument : Option Current → Token → Bool
is_argument none t = false
is_argument (some c) t = has_parent t c.cur_pl && leb t.stop c.stop

abbrev pub with_argument : Option Current → Bytes → Option Current
with_argument none arg = none
with_argument (some c) arg = some (record c { pl = record c.pl { argv = c.pl.argv ++ arg ∷ [] } })

module _ (text : Bytes) (c : ℕ) (stop : ℕ) where
  -- The body of the inner loop for the token `x`.
  unfoldable pub read_argument :
      Token
      → Option Current
      → State
      → (Option Current → State → Run (Rc × State))
      → Run (Rc × State)
  unfolding alloc
  read_argument x cur s next =
      let (grown, s') = alloc s in
      let (made, s'') = alloc s' in
      if not (is_string x.type)
      then done (failed, s)
      else if grown && made
      then next (with_argument cur (slice text x)) s''
      else done (failed, s'')

  -- The outer loop at the tokens `k` and `a`, the first of which has the index `i`: a key and an array.
  -- If `blk2bstr` fails, `pl_cleanup` reads `argc` before it is set.
  unfoldable pub open_plugin :
      Token → Token → ℕ → State → (Option Current → State → Run (Rc × State)) → Run (Rc × State)
  unfolding alloc
  open_plugin k a i s next =
      let (made, s') = alloc s in
      let (named, s'') = alloc s' in
      let pl : Plugin = record { name = slice text k; argv = []; h = unset } in
      let opened : Run (Rc × State) =
        next (some (record { pl = pl; cur_pl = suc i; stop = a.stop })) s'' in
      let filled : Run (Rc × State) =
        if made then (if named then opened else fault) else done (failed, s) in
      if not (has_parent k c && leb k.stop stop)
      then done (ok, s)
      else if is_string k.type && (has_parent a i && is_array a.type)
      then filled
      else done (failed, s)

  -- Both loops, from the token with the index `i` on.
  unfoldable pub plugins_loop : List Token → ℕ → Option Current → State → Run (Rc × State)
  unfolding read_argument open_plugin add_current
  plugins_loop [] i cur s = done (ok, add_current cur s)
  plugins_loop (x ∷ []) i cur s =
      let read = read_argument x cur s (λ cur' s'. done (ok, add_current cur' s')) in
      if is_argument cur x then read else done (ok, add_current cur s)
  plugins_loop (x ∷ a ∷ toks) i cur s =
      let read = read_argument x cur s (plugins_loop (a ∷ toks) (suc i)) in
      let opened = open_plugin x a i (add_current cur s) (plugins_loop toks (suc (suc i))) in
      if is_argument cur x then read else opened

-- `set_plugins`, for the object `t` at the index `c`; `toks` are the tokens behind it.
unfoldable pub set_plugins : Bytes → Token → List Token → ℕ → State → Run (Rc × State)
unfolding plugins_loop
set_plugins text t toks c s =
    let read = plugins_loop text c t.stop toks (suc c) none s in
    if is_object t.type then read else done (failed, s)
