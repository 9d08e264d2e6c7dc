-- ===== src/Url.antt =====
-- src/url.c: the table from urls and verbs to endpoints. An element of the hash table is the first
-- `struct url` of a url, with the list of those that `fra_end_url_add` linked behind it. An endpoint is
-- a non-NULL pointer, written as a number.
pub mod Routes
pub mod FirstRoute
pub mod Startup
use fast_cgi_rest_api.Common.{
  ℕ, Bool, true, false, not, Option, none, some, List, [], ◌∷◌, ◌++◌, map, Rc, ok, failed, Run,
  done, fault, ◌>>=◌, length, take, min, ltb, ◌==◌, if◌then◌else◌,
}
use fast_cgi_rest_api.Common.Sys.{Bytes, Strings, Floats}
use fast_cgi_rest_api.Ht.{Ht, Ptr, new, free, put, get, deref, store}

-- `struct url`, without its link
pub record Url : Type 0 where
  pub verb : Bytes
  pub e : ℕ

-- an element of the table: its own node, and the nodes that `next` leads to
pub record Chain : Type 0 where
  pub first : Url
  pub next : List Url

abbrev pub Table : Type 0
Table = Ht Url Chain

abbrev pub max_endpoint_length : ℕ
max_endpoint_length = 512

abbrev pub url_buckets : ℕ
url_buckets = 500

-- `set_url`, the callback that fills an element
abbrev pub set_url : Url → Option Chain
set_url arg = some (record { first = arg; next = [] })

-- The verbs that `destroy_url` destroys.
unfoldable pub destroy_url : Chain → List Bytes
destroy_url c = c.first.verb ∷ map (λ u. u.verb) c.next

-- `fra_p_url_ht_get`; the flags are those of `fra_p_ht_new`.
unfoldable pub ht_get : Bool → Bool → Option Table
ht_get m c = new m c url_buckets set_url

-- `fra_p_url_init`: `mutex_rc` is what `pthread_mutex_init` returns.
unfoldable pub init : (pthreads : Bool) (mutex_rc : ℕ) → Bool → Bool → Rc × Option Table
unfolding ht_get
init pthreads mutex_rc m c =
    let made : Rc × Option Table = elim (ht_get m c) [
      | none ↦ (failed, none)
      | some t ↦ (ok, some t)
    ] in
    if pthreads then (if not (mutex_rc == 0) then made else (failed, none)) else made

-- `fra_p_url_deinit` with `fra_p_pthreads` 0: the new table, and the strings that are destroyed.
unfoldable pub deinit : Option Table → Option Table × List (Bytes × Chain)
deinit urls = (none, free urls)

-- `strnlen`
abbrev pub strnlen : Bytes → ℕ → ℕ
strnlen s n = min (length s) n

-- Which allocations of `fra_end_url_add` succeed: the verb, a further node, and those of `put`.
pub record Allocs : Type 0 where
  pub verb : Bool
  pub node : Bool
  pub key : Bool
  pub grown : Bool

-- The loop to the last node, and the new node behind it.
unfoldable pub link : Chain → Url → Chain
link c u = record c { next = c.next ++ u ∷ [] }

module _ ⦃st : Strings⦄ where
  -- The loop of `fra_p_url_to_endpoint`.
  unfoldable pub match_verb : Bytes → List Url → Option ℕ
  match_verb verb [] = none
  match_verb verb (u ∷ us) =
      let rest = match_verb verb us in
      elim (st.biseq u.verb verb) [ none ↦ none | some eq ↦ if eq then some u.e else rest ]

  unfoldable pub to_endpoint : Table → Bytes → Bytes → Run (Option ℕ)
  unfolding match_verb
  to_endpoint urls verb url = do
    value ← get urls url
    elim value [
      | none ↦ done none
      | some p ↦ elim (deref urls p) [
        | none ↦ fault
        | some c ↦ done (match_verb verb (c.first ∷ c.next))
      ]
    ]

  -- The branch of `fra_end_url_add` for a url that the table has.
  unfoldable pub add_node : Bool → Table → Ptr → Url → Run (Rc × Table)
  unfolding link
  add_node false urls p u = done (failed, urls)
  add_node true urls p u = elim (deref urls p) [
    | none ↦ fault
    | some c ↦ done (ok, store urls p (link c u))
  ]

  -- The part of `fra_end_url_add` from the lookup on.
  unfoldable pub enter : ⦃fl : Floats⦄ → Allocs → Table → Url → Bytes → ℕ → Run (Rc × Table)
  unfolding add_node
  enter m urls u url url_len = do
    value ← get urls (take url_len url)
    elim value [ some p ↦ add_node m.node urls p u | none ↦ put m.key m.grown urls url u ]

  unfoldable pub add : ⦃fl : Floats⦄ → Allocs → Table → ℕ → Bytes → Bytes → Run (Rc × Table)
  add m urls e verb url =
      let url_len = strnlen url max_endpoint_length in
      if not m.verb
      then done (failed, urls)
      else if ltb url_len max_endpoint_length
      then enter m urls (record { verb = verb; e = e }) url url_len
      else done (failed, urls)
