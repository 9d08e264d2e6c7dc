-- ===== src/Conf/Plugins/Described.antt =====
-- The tokens that describe a list of plugins, and what `set_plugins` makes of them.
use fast_cgi_rest_api.Common.{
  ℕ, suc, ◌<◌, ◌≤◌, ◌≡◌, refl, ap, ◌∙◌, true, false, ◌&&◌, Option, none, some, List, [], ◌∷◌, ◌++◌,
  map, append_assoc, append-nil, arith, ok, leb, ◌==◌, done, All,
}
use fast_cgi_rest_api.Common.Sys.{Bytes}
use fast_cgi_rest_api.Pl.{Plugin, unset}
use fast_cgi_rest_api.Conf.Values.{
  Token, object, array, string, has_parent, is_string, slice, State, alloc,
}
use fast_cgi_rest_api.Conf.Plugins.{
  Current, add_current, is_argument, with_argument, read_argument, open_plugin, plugins_loop,
  set_plugins,
}
use fast_cgi_rest_api.Conf.Plugins.Spans.{
  Spans, token, skip, tokens, text_of, plugin_of, IsNested, needed_args, needed, IsEnd,
  with_plugins,
}

module _ (text : Bytes) (c : ℕ) (stop : ℕ) where
  -- One argument of the current plugin.
  argument_step :
      (x : Token) (l : List Token) (i m : ℕ) (cur : Current) (s : State)
      → is_argument (some cur) x ≡ true
      → is_string x.type ≡ true
      → s.mem ≡ suc (suc m)
      → plugins_loop text c stop (x ∷ l) i (some cur) s
        ≡ plugins_loop text c stop l
            (suc i)
            (with_argument (some cur) (slice text x))
            (record s { mem = m })
  unfolding plugins_loop read_argument alloc
  argument_step x [] i m cur s arg is_str mem =
      simp (plugins_loop, read_argument, alloc, arg, is_str, mem)
  argument_step x (a ∷ l) i m cur s arg is_str mem =
      simp (plugins_loop, read_argument, alloc, arg, is_str, mem)

  -- The current plugin with further arguments.
  full : Current → List (ℕ × ℕ) → Current
  full cur [] = cur
  full cur (a ∷ args) =
      full (record cur { pl = record cur.pl { argv = cur.pl.argv ++ text_of text a ∷ [] } }) args

  full-pl :
      (cur : Current) (args : List (ℕ × ℕ))
      → (full cur args).pl ≡ record cur.pl { argv = cur.pl.argv ++ map (text_of text) args }
  unfolding full
  full-pl cur [] = rw (append-nil cur.pl.argv)
  full-pl cur (a ∷ args) =
      full-pl (record cur { pl = record cur.pl { argv = cur.pl.argv ++ text_of text a ∷ [] } }) args
      ∙ rw (append_assoc cur.pl.argv (text_of text a ∷ []) (map (text_of text) args))

  arguments :
      (args : List (ℕ × ℕ)) (tail : List Token) (i m : ℕ) (cur : Current) (s : State)
      → All (λ a. a.1 ≤ cur.stop) args
      → plugins_loop text c stop
          (map (token string cur.cur_pl) args ++ tail)
          i
          (some cur)
          (record s { mem = needed_args args m })
        ≡ plugins_loop text c stop tail (skip i args) (some (full cur args)) (record s { mem = m })
  unfolding full
  arguments [] tail i m cur s fits = refl
  arguments (a ∷ args) tail i m cur s (fit, fits) =
      argument_step (token string cur.cur_pl a) _ i _ cur _ (ground (arith, fit)) refl refl
      ∙ arguments args tail (suc i) m
          (record cur { pl = record cur.pl { argv = cur.pl.argv ++ text_of text a ∷ [] } }) s fits

  -- A plugin that is not current any more, at the end or before a token that is no argument of it.
  IsOver : Option Current → List Token → Type 0
  IsOver cur [] = Unit {0}
  IsOver cur (x ∷ l) = is_argument cur x ≡ false

  open_step :
      (p : Spans) (l : List Token) (i m : ℕ) (cur : Option Current) (s : State)
      → is_argument cur (token string c p.name) ≡ false
      → p.name.1 ≤ stop
      → plugins_loop text c stop
          (token string c p.name ∷ token array i p.arr ∷ l)
          i
          cur
          (record s { mem = suc (suc m) })
        ≡ plugins_loop text c stop l
            (suc (suc i))
            (some (record {
              pl = record { name = text_of text p.name; argv = []; h = unset };
              cur_pl = suc i;
              stop = p.arr.1;
            }))
            (add_current cur (record s { mem = m }))
  unfolding plugins_loop open_plugin alloc add_current
  open_step p l i m none s over fit =
      let in_object : (c == c) && leb p.name.1 stop ≡ true = ground (arith, fit) in
      let in_key : (i == i) ≡ true = ground arith in
      simp (plugins_loop, open_plugin, alloc, add_current, in_object, in_key)
  open_step p l i m (some cur) s over fit =
      let in_object : (c == c) && leb p.name.1 stop ≡ true = ground (arith, fit) in
      let in_key : (i == i) ≡ true = ground arith in
      simp (plugins_loop, over, open_plugin, alloc, add_current, in_object, in_key)

  -- The loops end where the object ends.
  end_step :
      (rest : List Token) (i : ℕ) (cur : Option Current) (s : State)
      → IsEnd c rest
      → IsOver cur rest
      → plugins_loop text c stop rest i cur s ≡ done (ok, add_current cur s)
  unfolding plugins_loop IsOver open_plugin
  end_step [] i cur s e over = refl
  end_step (x ∷ []) i cur s e over = rw (plugins_loop, over)
  end_step (x ∷ a ∷ l) i cur s e over =
      let outside : has_parent x c ≡ false = e c (omega arith) in
      rw (plugins_loop, over, open_plugin, outside)

  abbrev IsBehind : Option Current → Type 0
  IsBehind none = Unit {0}
  IsBehind (some cur) = c < cur.cur_pl

  IsOver-key :
      (cur : Option Current) (span : ℕ × ℕ)
      → IsBehind cur
      → is_argument cur (token string c span) ≡ false
  IsOver-key none span h = refl
  IsOver-key (some cur) span h = ground (arith, h)

  IsOver-end :
      (cur : Option Current) (rest : List Token) → IsBehind cur → IsEnd c rest → IsOver cur rest
  unfolding IsOver
  IsOver-end cur [] h e = tt
  IsOver-end none (x ∷ rest) h e = refl
  IsOver-end (some cur) (x ∷ rest) h e = rw (e cur.cur_pl (omega (arith, h)))

  add_current-mem :
      (cur : Option Current) (s : State) (m : ℕ)
      → add_current cur (record s { mem = m }) ≡ record (add_current cur s) { mem = m }
  unfolding add_current
  add_current-mem none s m = refl
  add_current-mem (some cur) s m = refl

  full-cur_pl : (cur : Current) (args : List (ℕ × ℕ)) → (full cur args).cur_pl ≡ cur.cur_pl
  unfolding full
  full-cur_pl cur [] = refl
  full-cur_pl cur (a ∷ args) =
      full-cur_pl (record cur { pl = record cur.pl { argv = cur.pl.argv ++ text_of text a ∷ [] } })
        args

  skip-le : (i : ℕ) (args : List (ℕ × ℕ)) → i ≤ skip i args
  skip-le i [] = omega arith
  skip-le i (a ∷ args) = omega (arith, skip-le (suc i) args)

  with_plugins-add_current :
      (cur : Current) (p : Plugin) (t : State) (ps : List Plugin) (m : ℕ)
      → cur.pl ≡ p
      → with_plugins (add_current (some cur) t) ps m ≡ with_plugins t (p ∷ ps) m
  unfolding add_current
  with_plugins-add_current cur p t ps m e = rw (e, append_assoc t.plugins (p ∷ []) ps)

  plugins_loop-tokens :
      (ps : List Spans) (rest : List Token) (i m : ℕ) (cur : Option Current) (s : State)
      → All (IsNested stop) ps
      → IsEnd c rest
      → c < i
      → IsBehind cur
      → plugins_loop text c stop (tokens c i ps ++ rest) i cur (record s { mem = needed ps m })
        ≡ done (ok, with_plugins (add_current cur s) (map (plugin_of text) ps) m)
  unfolding tokens
  plugins_loop-tokens [] rest i m cur s nested e small behind =
      end_step rest i cur _ e (IsOver-end cur rest behind e)
      ∙ rw (add_current-mem cur s m, append-nil (add_current cur s).plugins)
  plugins_loop-tokens (p ∷ ps) rest i m cur s ((fit, fits), nested) e small behind =
      let opened : Current = record {
        pl = record { name = text_of text p.name; argv = []; h = unset };
        cur_pl = suc i;
        stop = p.arr.1;
      } in
      let j = skip (suc (suc i)) p.args in
      let t = add_current cur s in
      open_step p _ i _ cur s (IsOver-key cur p.name behind) fit
      ∙ rw
          (
            add_current-mem cur s (needed_args p.args (needed ps m)),
            append_assoc (map (token string (suc i)) p.args) (tokens c j ps) rest,
          )
          (arguments p.args (tokens c j ps ++ rest) (suc (suc i)) (needed ps m) opened t fits
            ∙ plugins_loop-tokens ps rest j m (some (full opened p.args)) t nested e
                (omega (arith, skip-le (suc (suc i)) p.args))
                (omega (arith, full-cur_pl opened p.args))
            ∙ ap (λ u. done (ok, u))
                (with_plugins-add_current (full opened p.args) (plugin_of text p) t
                  (map (plugin_of text) ps) m (full-pl opened p.args ∙ unfold plugin_of in refl)))

-- `set_plugins` at the tokens of any plugins, as jsmn lays them out: the object, then for each plugin its
-- name, its array and the elements, then what is not in the object. With enough memory it adds exactly
-- these plugins, in their order, each with its name and its arguments.
pub set_plugins-tokens :
    (text : Bytes) (t : Token) (c : ℕ) (ps : List Spans) (rest : List Token) (m : ℕ) (s : State)
    → t.type ≡ object
    → All (IsNested t.stop) ps
    → IsEnd c rest
    → s.mem ≡ needed ps m
    → set_plugins text t (tokens c (suc c) ps ++ rest) c s
      ≡ done (ok, with_plugins s (map (plugin_of text) ps) m)
unfolding set_plugins
set_plugins-tokens text t c ps rest m s typed nested e mem =
    rw (set_plugins, typed)
      (rw (← mem) at
        (plugins_loop-tokens text c t.stop ps rest (suc c) m none s nested e (omega arith) tt))
