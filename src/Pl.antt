-- ===== src/Pl.antt =====
-- src/pl.c: the list of the plugins, which are loaded in their order. `g_last` is the last node of the
-- list that `g_first` leads to, and is not read when that is empty, so the list alone is the state.
pub mod Lifecycle
pub mod Unload
use fast_cgi_rest_api.Common.{
  ℕ, suc, Bool, Option, none, some, List, [], ◌∷◌, ◌++◌, Rc, ok, failed, Run, done, fault, ◌>>=◌,
  ◌==◌, if◌then◌else◌,
}
use fast_cgi_rest_api.Common.Sys.{Bytes}

-- The field `h`: as `malloc` left it, NULL, or what `dlopen` returned.
pub data Handle : Type 0 where
  unset null : Handle
  opened : ℕ → Handle

-- `struct fra_p_pl`, without its link; `argc` is the length of `argv`.
pub record Plugin : Type 0 where
  pub name : Bytes
  pub argv : List Bytes
  pub h : Handle

-- `dlopen`, `dlsym`, the functions that it finds, and `dlclose`, whose argument may be NULL.
pub record Dl (W : Type 0) : Type 0 where
  pub dlopen : Bytes → W → Option ℕ × W
  pub dlsym : ℕ → Bytes → W → Option ℕ × W
  pub call : ℕ → List Bytes → W → Rc × W
  pub dlclose : Option ℕ → W → Rc × W

-- `fra_p_pl_free`: the strings that are freed.
unfoldable pub pl_free : Plugin → List Bytes
pl_free pl = pl.name ∷ pl.argv

-- `fra_p_pl_reset`: the list after it, and the plugins that `fra_p_pl_free` frees. No handle is closed.
unfoldable pub pl_reset : List Plugin → List Plugin × List Plugin
pl_reset first = ([], first)

-- `fra_p_pl_add`
unfoldable pub pl_add : List Plugin → Plugin → List Plugin
pl_add first pl = first ++ pl ∷ []

module _ {W : Type 0} (dl : Dl W) where
  -- The label `h_cleanup`, for the open handle `h`.
  unfoldable pub h_cleanup : Plugin → ℕ → W → Rc × Plugin × W
  h_cleanup c h w =
      let (rc, w') = dl.dlclose (some h) w in
      elim rc [
        | ok ↦ (failed, record c { h = null }, w')
        | failed ↦ (failed, record c { h = opened h }, w')
      ]

  -- From the test of `argc` on.
  unfoldable pub start : Plugin → ℕ → W → Rc × Plugin × W
  unfolding h_cleanup
  start c h w = elim c.argv [
    | [] ↦ h_cleanup c h w
    | f ∷ args ↦
        let (s, w') = dl.dlsym h f w in
        elim s [
          | none ↦ h_cleanup c h w'
          | some s ↦
              let (rc, w'') = dl.call s (f ∷ args) w' in
              elim rc [ ok ↦ (ok, record c { h = opened h }, w'') | failed ↦ h_cleanup c h w'' ]
        ]
  ]

  -- One turn of the loop of `fra_p_pl_load`.
  unfoldable pub load_one : Plugin → W → Rc × Plugin × W
  unfolding start
  load_one c w =
      let (h, w') = dl.dlopen c.name w in
      elim h [ none ↦ (failed, record c { h = null }, w') | some h ↦ start c h w' ]

  unfoldable pub pl_load : List Plugin → W → Rc × List Plugin × W
  unfolding load_one
  pl_load [] w = (ok, [], w)
  pl_load (c ∷ next) w =
      let (rc, c', w') = load_one c w in
      let rest = pl_load next w' in
      elim rc [ ok ↦ (rest.0, c' ∷ rest.1, rest.2) | failed ↦ (failed, c' ∷ next, w') ]

  -- `dlclose( c->h )`; an undefined value is not read.
  unfoldable pub close : Handle → W → Run (Rc × W)
  close unset w = fault
  close null w = done (dl.dlclose none w)
  close (opened h) w = done (dl.dlclose (some h) w)

  -- The loop of `fra_p_pl_unload`: the number of failures.
  unfoldable pub close_all : List Plugin → ℕ → W → Run (ℕ × W)
  unfolding close
  close_all [] rc_c w = done (rc_c, w)
  close_all (c ∷ next) rc_c w = do
    (rc, w') ← close c.h w
    close_all next (elim rc [ ok ↦ rc_c | failed ↦ suc rc_c ]) w'

  unfoldable pub pl_unload : List Plugin → W → Run (Rc × W)
  unfolding close_all
  pl_unload first w = do
    (rc_c, w') ← close_all first 0 w
    done (if rc_c == 0 then ok else failed, w')
