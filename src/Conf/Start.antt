-- ===== src/Conf/Start.antt =====
-- The start and the stop of the configuration: `fra_p_conf_init`, `fra_p_conf_deinit` and
-- `str_arr_destroy` of src/conf.c. There is one variable of each kind.
use fast_cgi_rest_api.Common.{ok, List, [], ◌∷◌, ◌++◌, Rc, set, flatten, map}
use fast_cgi_rest_api.Common.Int.{pos}
use fast_cgi_rest_api.Common.Sys.{Bytes}
use fast_cgi_rest_api.Pl.{Plugin, pl_reset}
use fast_cgi_rest_api.Conf.Values.{State, alloc, when}

unfoldable pub conf_init : State → Rc × State
unfolding alloc
conf_init s = when (alloc s) λ s'. (
  ok,
  record s' { g_strings = set s'.g_strings 0 []; str_arrs = [] ∷ []; num_or_bools = pos 0 ∷ [] },
)

-- The array after it, and the strings that are destroyed.
abbrev pub str_arr_destroy : List Bytes → List Bytes × List Bytes
str_arr_destroy a = ([], a)

-- The state after it, the plugins that are freed and the strings that are destroyed; `g_strings` still
-- leads to its own.
unfoldable pub conf_deinit : State → State × List Plugin × List Bytes
conf_deinit s =
    let (plugins, freed) = pl_reset s.plugins in
    (
      record s { plugins = plugins; str_arrs = map (λ a. (str_arr_destroy a).0) s.str_arrs },
      freed,
      s.g_strings ++ flatten (map (λ a. (str_arr_destroy a).1) s.str_arrs),
    )
