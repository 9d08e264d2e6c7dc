-- ===== src/Pl/Unload.antt =====
-- Unloading the plugins after they were loaded.
use fast_cgi_rest_api.Common.{
  ℕ, suc, ◌≡◌, refl, subst, append_assoc, List, [], ◌∷◌, ◌++◌, inl, inr, some, arith, Rc, ok,
  failed, Rc-cases, bind_fault, done, fault, ◌==◌, if◌then◌else◌, length,
}
use fast_cgi_rest_api.Pl.{unset, Plugin, Dl, load_one, pl_load, close, close_all, pl_unload}
use fast_cgi_rest_api.Pl.Lifecycle.{Loaded, Loads, end_reached, next, stopped, pl_load-Loads}

module _ {W : Type 0} (dl : Dl W) where
  -- `dlclose` at each of some handles, with the number of failures.
  unfoldable pub close_each : List ℕ → ℕ → W → ℕ × W
  close_each [] n w = (n, w)
  close_each (h ∷ hs) n w =
      let (rc, w') = dl.dlclose (some h) w in close_each hs (elim rc [ ok ↦ n | failed ↦ suc n ]) w'

  -- What `dlopen` returns for each of the plugins, if all are loaded.
  pub data Opens : List Plugin → W → List ℕ → Type 0 where
    none_opened : (w : W) → Opens [] w []
    one_opened :
        {p p' : Plugin} {l : List Plugin} {w v : W} {hs : List ℕ}
        → (d : Loaded dl p w p' v) → Opens l v hs
        → Opens (p ∷ l) w (d.handle ∷ hs)

  close_all-Loads :
      {l : List Plugin} {rc : Rc} {l' : List Plugin} {w u : W} (n : ℕ) (v : W)
      → Loads dl l w rc l' u
      → rc ≡ ok
      → (hs : List ℕ) × Opens l w hs
        × (length hs ≡ length l)
        × (close_all dl l' n v ≡ done (close_each hs n v))
  unfolding close_all close_each
  close_all-Loads n v (end_reached w) e = ([], none_opened w, refl, refl)
  close_all-Loads n v (stopped l m) e = cc
  close_all-Loads n v (next p m) e =
      let rc = (dl.dlclose (some p.handle) v).0 in
      let t = (dl.dlclose (some p.handle) v).1 in
      let (hs, opens, sizes, closes) =
        close_all-Loads (elim rc [ ok ↦ n | failed ↦ suc n ]) t m e in
      (
        p.handle ∷ hs,
        one_opened p opens,
        omega (arith, sizes),
        rw (p.kept, close_all, close) closes,
      )

  -- After a `fra_p_pl_load` that returned 0, `fra_p_pl_unload` calls `dlclose` once for each plugin, at
  -- the handle that `dlopen` returned for it, in their order, and returns 0 if all calls do.
  pub pl_unload-pl_load :
      (first : List Plugin) (w v : W)
      → let r = pl_load dl first w in
        r.0 ≡ ok
        → (hs : List ℕ) × Opens first w hs
          × (length hs ≡ length first)
          × (pl_unload dl r.1 v
              ≡ done (
                  let closed = close_each hs 0 v in
                  (if closed.0 == 0 then ok else failed, closed.1)))
  unfolding pl_unload
  pl_unload-pl_load first w v good =
      let (hs, opens, sizes, closes) = close_all-Loads 0 v (pl_load-Loads dl first w) good in
      (hs, opens, sizes, rw (pl_unload, closes))

  pl_load-append :
      (front rest : List Plugin) (w : W)
      → (pl_load dl front w).0 ≡ ok
      → let r = pl_load dl front w in
        let t = pl_load dl rest r.2 in pl_load dl (front ++ rest) w ≡ (t.0, r.1 ++ t.1, t.2)
  unfolding pl_load
  pl_load-append [] rest w good = refl
  pl_load-append (p ∷ front) rest w good = elim (Rc-cases (load_one dl p w).0) [
    | inl first ↦
        rw (pl_load, first)
          (rw (pl_load-append front rest (load_one dl p w).2 (rw (pl_load, first) at good)))
    | inr bad ↦ let never : failed ≡ ok = rw (pl_load, bad) at good in cc
  ]

  close_all-unset :
      (front : List Plugin) (p : Plugin) (rest : List Plugin) (n : ℕ) (w : W)
      → p.h ≡ unset
      → close_all dl (front ++ p ∷ rest) n w ≡ fault
  unfolding close_all
  close_all-unset [] p rest n w e = rw (close_all, e, close)
  close_all-unset (q ∷ front) p rest n w e =
      bind_fault (close dl q.h w) _ (λ r. close_all-unset front p rest _ r.1 e)

  -- If the loading of a plugin fails and there is one behind it, `fra_p_pl_load` returns -1, and
  -- `fra_p_pl_unload` then reads the handle of the plugin behind, which nothing has set.
  pub pl_unload-failed :
      (front : List Plugin) (q p : Plugin) (rest : List Plugin) (w v : W)
      → (pl_load dl front w).0 ≡ ok
      → (load_one dl q (pl_load dl front w).2).0 ≡ failed
      → p.h ≡ unset
      → let r = pl_load dl (front ++ q ∷ p ∷ rest) w in
        (r.0 ≡ failed) × (pl_unload dl r.1 v ≡ fault)
  unfolding pl_unload pl_load
  pl_unload-failed front q p rest w v good bad unset_handle =
      let r = pl_load dl front w in
      let c = (load_one dl q r.2).1 in
      let stops : pl_load dl (q ∷ p ∷ rest) r.2 ≡ (failed, c ∷ p ∷ rest, (load_one dl q r.2).2) =
        rw (pl_load, bad) in
      let whole = pl_load-append front (q ∷ p ∷ rest) w good in
      let lost : close_all dl (r.1 ++ c ∷ p ∷ rest) 0 v ≡ fault =
        subst (λ l. close_all dl l 0 v ≡ fault) (append_assoc r.1 (c ∷ []) (p ∷ rest))
          (close_all-unset (r.1 ++ c ∷ []) p rest 0 v unset_handle) in
      rw (whole, stops) (refl, rw lost)
