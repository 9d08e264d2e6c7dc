-- ===== src/Examples/Registers.antt =====
-- The variables and the hooks at concrete values.
use fast_cgi_rest_api.Common.{
  ℕ, ◌-◌, ◌+◌, ◌≤◌, ◌≡◌, ◌≢◌, ◌⊎◌, refl, true, false, ◌&&◌, none, some, List, [], ◌∷◌, arith,
  get_elem?, ltb, Rc, ok, done, Returns,
}
use fast_cgi_rest_api.Common.Int.{pos}
use fast_cgi_rest_api.Common.Sys.{Bytes}
use fast_cgi_rest_api.Ht.View.{home, home-lt, view}
use fast_cgi_rest_api.Ht.Fresh.{lookup_empty}
use fast_cgi_rest_api.Var
use fast_cgi_rest_api.Var.{
  Var, VarMap, Store, Request, Mode, expect, report, reg, var_get, size_max, init,
}
use fast_cgi_rest_api.Var.Layout.{
  Entry, entry_of, IsStore, Registered, reg-Registered, Call, made, reg_all,
}
use fast_cgi_rest_api.Var.Lookup.{Outcome, var_get-found, var_get-reg}
use fast_cgi_rest_api.Var.Blocks.{empty_store, reg_all-disjoint}
use fast_cgi_rest_api.Hook.{Table, hook_reg}
use fast_cgi_rest_api.Hook.Register.{TableIsOrdered}
use fast_cgi_rest_api.Hook.Free.{FreesOneMore, free-hook_reg}
use fast_cgi_rest_api.Hook.Execute.{Runs, hook_execute-hook_reg}
use fast_cgi_rest_api.Examples.{strings, floats}

-- An empty map of one bucket.
abbrev map : VarMap
map = record { set_value = Var.var_set; collisions_count = pos 0; buck = [] ∷ [] }

abbrev no_vars : Store
no_vars = record { map = map; size = 0 }

none_there : (q : Bytes) → get_elem? map.buck (home map q) ≡ some []
none_there q = let first : home map q ≡ 0 = omega (arith, home-lt map q (omega arith)) in rw first

no_vars-IsStore : IsStore no_vars []
unfolding view entry_of
no_vars-IsStore = record {
  width = omega arith;
  setter = λ a. refl;
  laid = refl;
  bounded = omega arith;
  reads = λ q. lookup_empty map (home map q) q (none_there q);
}

-- Names of types.
abbrev int : Bytes
int = 105 ∷ []

abbrev long : Bytes
long = 108 ∷ []

abbrev plenty : Var.Allocs
plenty = record { type = true; key = true; grown = true }

abbrev request : Request
request = record { req_store = 1000; endpoint = none; endpoint_store = none }

reg-Registered_example :
    Registered
      (ltb 0 (size_max - 8) && (true && (true && true)))
      no_vars
      []
      (97 ∷ [])
      int
      8
      (reg plenty no_vars (97 ∷ []) int 8)
reg-Registered_example = reg-Registered plenty no_vars [] (97 ∷ []) int 8 no_vars-IsStore

-- Two variables, a second registration of the first, and one whose type is not copied.
abbrev calls : List Call
calls =
    (97 ∷ [], int, 8, plenty)
    ∷ (98 ∷ [], int, 4, plenty)
    ∷ (97 ∷ [], int, 8, plenty)
    ∷ (99 ∷ [], int, 8, record plenty { type = false })
    ∷ []

reg_all-disjoint_example :
    let es = made 0 calls in
    (map : VarMap) × (init true true 5 ≡ (ok, some map))
    × Returns (reg_all calls (empty_store map)) λ s.
      IsStore s es
      × ((p q : Bytes) (v w : Var)
          → p ≢ q
          → view s.map p ≡ some v
          → view s.map q ≡ some w
          → (x y : Entry) × (entry_of p es ≡ some x)
            × (entry_of q es ≡ some y)
            × (v.position + x.size ≤ s.size)
            × (w.position + y.size ≤ s.size)
            × ((v.position + x.size ≤ w.position) ⊎ (w.position + y.size ≤ v.position)))
reg_all-disjoint_example = reg_all-disjoint 5 calls (omega arith)

var_get-found_example :
    Returns
      (var_get (some map) request (97 ∷ 0 ∷ []) 2 (expect int 2))
      (Outcome (some map) request (97 ∷ 0 ∷ []) 2 (expect int 2))
var_get-found_example =
    var_get-found (some map) request (97 ∷ 0 ∷ []) 2 (expect int 2) (omega arith) _

var_get-reg_example : Returns (reg plenty no_vars (97 ∷ []) int 8) λ r.
    (r.0 ≡ ok)
    × (var_get (some r.1.map) request (97 ∷ 0 ∷ []) 2 (expect int 2) ≡ done (some (1000, int)))
    × (long ≢ int → var_get (some r.1.map) request (97 ∷ 0 ∷ []) 2 (expect long 2) ≡ done none)
var_get-reg_example =
    var_get-reg no_vars [] (97 ∷ []) int long 8 request no_vars-IsStore (unfold entry_of in refl)
      (λ e. cc) (omega arith) _

-- A table of two lists, the first of which has a hook of priority 1.
abbrev hooks : Table
hooks = (record { callback = 7; priority = pos 1 } ∷ []) ∷ [] ∷ []

hooks-TableIsOrdered : TableIsOrdered hooks
hooks-TableIsOrdered = ((_, _), (_, _))

abbrev count_calls : ℕ → ℕ → Rc × ℕ
count_calls callback n = (ok, n + 1)

hook_execute-hook_reg_example :
    Runs count_calls hooks 0 8 (pos 1) 0 (hook_reg true hooks 0 8 (pos 1) 2)
hook_execute-hook_reg_example =
    hook_execute-hook_reg count_calls hooks 0 8 (pos 1) 0 hooks-TableIsOrdered (omega arith)
      (omega arith)

free-hook_reg_example :
    FreesOneMore hooks
      (record { callback = 8; priority = pos 1 })
      (hook_reg true hooks 0 8 (pos 1) 2)
free-hook_reg_example =
    free-hook_reg hooks 0 8 (pos 1) hooks-TableIsOrdered (omega arith) (omega arith)
