-- ===== src/Sched/Pages/Entries.antt =====
-- That a page taken from the free list and a written entry of a table keep the memory of pmap.c sound.
use tps_sistemas_operativos.Base.{
  ℕ, ◌+◌, ◌<◌, ◌≡◌, ◌≢◌, refl, inl, inr, arith, ap, sym, update, update-elim, none, List, ◌∷◌,
}
use tps_sistemas_operativos.Sched.Pages.{PageInfo, Memory, store, taken}
use tps_sistemas_operativos.Sched.Pages.Count.{
  Kind, plain, directory, table, is_table, hit, refs, refs-store,
}
use tps_sistemas_operativos.Sched.Pages.Sound.{Has, Refers, Sound, Chain-update}

module _ {m : Memory} {held : ℕ → ℕ} {kind : ℕ → Kind} where
  -- The head of the list leaves it.
  pub taken-Sound :
      (p : ℕ) (free : List ℕ) → Sound m held kind (p ∷ free) → Sound (taken p m) held kind free
  taken-Sound p free ok =
      let info : PageInfo = record (m.pages p) { pp_link = none } in
      let (head, rest) = ok.chain in
      let (fresh, once) = ok.once in
      record {
        memory = ok.memory;
        chain = Chain-update (m.pages) p info ((m.pages p).pp_link) free fresh rest;
        once = once;
        free_ok = λ q at.
            update-elim
              (λ (q' : ℕ) (x : PageInfo).
                Has q' free → (q' < m.npages) × (kind q' ≡ plain) × (x.pp_ref ≡ 0))
              (m.pages) p info (λ h. ok.free_ok p (inr h)) (λ q' ne h. ok.free_ok q' (inr h)) q at;
        unlinked =
            update-elim (λ (q' : ℕ) (x : PageInfo). (Has q' free → ⊥) → x.pp_link ≡ none) (m.pages)
              p info (λ out. refl)
              (λ q' ne out. ok.unlinked q' (λ at. elim at [ inl e ↦ ne (sym e) | inr h ↦ out h ]));
        small =
            update-elim (λ (q' : ℕ) (x : PageInfo). x.pp_ref < 65536) (m.pages) p info (ok.small p)
              (λ q' ne. ok.small q');
        placed = ok.placed;
        tables = ok.tables;
        mapped = ok.mapped;
        counted =
            update-elim
              (λ (q' : ℕ) (x : PageInfo).
                kind q' ≡ plain → x.pp_ref ≡ held q' + refs (m.npages) (m.words) kind q')
              (m.pages) p info (ok.counted p) (λ q' ne. ok.counted q');
      }

  module _ {free : List ℕ} (ok : Sound m held kind free) where
    -- An entry of a table is written. What other references there are to a page makes up for it.
    pub store-Sound :
        (t d i j v : ℕ) (held' : ℕ → ℕ)
        → kind t ≡ table d i
        → j < 1024
        → (v ≢ 0 → Refers m kind v plain)
        → ((p : ℕ) → kind p ≡ plain → held p + hit (m.words t j) p ≡ held' p + hit v p)
        → Sound (store t j v m) held' kind free
    store-Sound t d i j v held' use_ lt refers fits =
        let inside = ok.placed t d i use_ in
        record {
          memory = ok.memory;
          chain = ok.chain;
          once = ok.once;
          free_ok = ok.free_ok;
          unlinked = ok.unlinked;
          small = ok.small;
          placed = ok.placed;
          tables = λ d' i' is_dir lt' nonzero.
              update-elim
                (λ (t' : ℕ) (r : ℕ → ℕ).
                  kind t' ≡ directory → r i' ≢ 0 → Refers m kind (r i') (table t' i'))
                (m.words) t (update (m.words t) j v) (λ k nz. absurd (cc (k, use_)))
                (λ t' ne k nz. ok.tables t' i' k lt' nz) d' is_dir nonzero;
          mapped = λ t' d' i' j' k lt' nonzero.
              update-elim
                (λ (x : ℕ) (r : ℕ → ℕ).
                  kind x ≡ table d' i' → r j' ≢ 0 → Refers m kind (r j') plain)
                (m.words) t (update (m.words t) j v)
                (λ k' nz.
                  update-elim (λ (y : ℕ) (w : ℕ). y < 1024 → w ≢ 0 → Refers m kind w plain)
                    (m.words t) j v (λ lt'' nz'. refers nz')
                    (λ y ne lt'' nz'. ok.mapped t d' i' y k' lt'' nz') j' lt' nz)
                (λ x ne k' nz. ok.mapped x d' i' j' k' lt' nz) t' k nonzero;
          counted = λ p k. omega (
            arith,
            ok.counted p k,
            fits p k,
            refs-store (m.npages) (m.words) kind t j v p inside lt (ap is_table use_),
          );
        }
