-- ===== src/Var.antt =====
-- src/var.c: named variables that lie in one block of memory per request, and in one per use of an
-- endpoint. A registration records a variable's offset and type; a lookup returns its address.
pub mod Layout
pub mod Lookup
pub mod Blocks
use fast_cgi_rest_api.Common.{
  ℕ, zero, suc, ◌+◌, ◌-◌, ◌%◌, ◌^◌, Bool, true, false, not, ◌&&◌, Option, none, some, List, Rc, ok,
  failed, Run, done, fault, ◌>>=◌, length, take, ltb, ◌==◌, if◌then◌else◌,
}
use fast_cgi_rest_api.Common.Sys.{Bytes, Strings, Floats}
use fast_cgi_rest_api.Ht.{Ht, Ptr, new, free, put, get_by_hash, deref}

-- `struct var`
pub record Var : Type 0 where
  pub type : Bytes
  pub position : ℕ

abbrev pub VarMap : Type 0
VarMap = Ht Var Var

-- `SIZE_MAX`, and the sum of two values of type `size_t`
abbrev pub size_max : ℕ
size_max = 2 ^ 64 - 1

abbrev pub add_size : ℕ → ℕ → ℕ
add_size a b = (a + b) % 2 ^ 64

-- `fra_p_var_set` copies its argument.
abbrev pub var_set : Var → Option Var
var_set arg = some arg

-- `fra_p_var_ht_get`; the flags are those of `fra_p_ht_new`.
unfoldable pub ht_get : Bool → Bool → ℕ → Option VarMap
ht_get m c var_count = new m c var_count var_set

-- `fra_p_var_init`
unfoldable pub init : Bool → Bool → ℕ → Rc × Option VarMap
unfolding ht_get
init m c var_count = elim (ht_get m c var_count) [ none ↦ (failed, none) | some t ↦ (ok, some t) ]

-- A map with the size of the block that its variables lie in.
pub record Store : Type 0 where
  pub map : VarMap
  pub size : ℕ

-- Which allocations of a registration succeed: the copy of the type, and those of `put`.
pub record Allocs : Type 0 where
  pub type : Bool
  pub key : Bool
  pub grown : Bool

-- What `reg` does with the code that `fra_p_ht_set` returns, which is never 1.
abbrev pub after_set : Store → ℕ → Rc × VarMap → Rc × Store
after_set s size (ok, map) = (ok, record { map = map; size = add_size s.size size })
after_set s size (failed, map) = (failed, record s { map = map })

module _ ⦃st : Strings⦄ where
  unfoldable pub reg : ⦃fl : Floats⦄ → Allocs → Store → Bytes → Bytes → ℕ → Run (Rc × Store)
  reg m s name type size =
      let entered : Run (Rc × Store) =
        put m.key m.grown s.map name (record { type = type; position = s.size }) >>= λ r.
        done (after_set s size r) in
      if not (ltb s.size (size_max - size))
      then done (failed, s)
      else if m.type
      then entered
      else done (failed, s)

  -- `fra_end_var_reg`, on the store of the endpoint
  unfoldable pub end_var_reg : ⦃fl : Floats⦄ → Allocs → Store → Bytes → Bytes → ℕ → Run (Rc × Store)
  unfolding reg
  end_var_reg m endpoint name type size = reg m endpoint name type size

  -- `fra_req_var_reg`, on the global store; `lock` and `unlock` are the codes of the mutex calls.
  unfoldable pub req_var_reg :
      ⦃fl : Floats⦄ → (lock unlock : Rc) → Allocs → Store → Bytes → Bytes → ℕ → Run (Rc × Store)
  req_var_reg failed unlock m glob name type size = done (failed, glob)
  req_var_reg ok unlock m glob name type size = do
    r ← reg m glob name type size
    elim unlock [ ok ↦ done r | failed ↦ done (failed, r.1) ]

-- What `var_get` reads of a request: the block of its variables, and the map and the block of its
-- endpoint. A block is given by its address.
pub record Request : Type 0 where
  pub req_store : ℕ
  pub endpoint : Option VarMap
  pub endpoint_store : Option ℕ

-- A caller names the type and the size of its literal, or asks for the type.
pub data Mode : Type 0 where
  expect : Bytes → ℕ → Mode
  report : Mode

-- `type_len - 1 == var->type->slen && biseqcstr( var->type, type ) == 1`, where a type is expected
unfoldable pub type_matches : ⦃st : Strings⦄ → Mode → Var → Bool
type_matches ⦃st⦄ report v = true
type_matches ⦃st⦄ (expect type type_len) v =
    type_len == length v.type + 1 && elim (st.biseqcstr v.type type) [ none ↦ false | some e ↦ e ]

module _ ⦃st : Strings⦄ where
  -- The test of the type, and the address with the type.
  unfoldable pub located : Mode → ℕ → Var → Option (ℕ × Bytes)
  located mode store v = if type_matches mode v then some (store + v.position, v.type) else none

  -- The variable that a lookup in a map finds.
  unfoldable pub var_of : Option VarMap → Bytes → Run (Option Var)
  var_of none name = done none
  var_of (some map) name = do
    p ← get_by_hash (some map) name
    elim p [
      | none ↦ done none
      | some p ↦ elim (deref map p) [ none ↦ fault | some v ↦ done (some v) ]
    ]

  -- The branch of `var_get` for a name that is not global: the map and the block of the endpoint.
  unfoldable pub endpoint_var : Option VarMap → Option ℕ → Mode → Bytes → Run (Option (ℕ × Bytes))
  endpoint_var none store mode name = done none
  endpoint_var (some map) none mode name = done none
  endpoint_var (some map) (some store) mode name = do
    v ← var_of (some map) name
    elim v [ none ↦ done none | some v ↦ done (located mode store v) ]

  -- `name` is the array that the caller passes, its final NUL included, and `name_len` its length.
  unfoldable pub var_get : Option VarMap → Request → Bytes → ℕ → Mode → Run (Option (ℕ × Bytes))
  var_get glob r name name_len mode =
      let key = take (name_len - 1) name in
      let found : Run (Option (ℕ × Bytes)) = var_of glob key >>= λ v. elim v [
        | some v ↦ done (located mode r.req_store v)
        | none ↦ endpoint_var r.endpoint r.endpoint_store mode key
      ] in
      if ltb 0 (name_len - 1) then found else done none
