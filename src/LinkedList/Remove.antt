-- ===== src/LinkedList/Remove.antt =====
-- `list_remove` of the first node.
use code_samples.Base.{
  ℕ, suc, ◌+◌, ◌-◌, ◌%◌, ◌^◌, ◌<◌, ◌≡◌, ◌≢◌, refl, false, none, some, [], ◌∷◌, arith, ◌==◌, length,
}
use code_samples.LinkedList.Memory.{Ptr, null, node, header, Heap, done, update, Finishes, finishes}
use code_samples.LinkedList.Chain.{
  Cells, last, Chain, nil, cons, IsList, Chain-update, has-ne, last-mem,
}
use code_samples.LinkedList.{list_remove, success}

module _ (k : ℕ) (h : Heap) (l : Ptr) where
  remove_run_only :
      (p : Ptr) (v : ℕ)
      → l ≢ null
      → p ≢ null
      → h.lists l ≡ some (header 1 p p)
      → h.nodes p ≡ some (node v null)
      → list_remove (suc k) l p h
        ≡ done success (record {
          nodes = update h.nodes p none;
          lists =
              update
                (update (update h.lists l (some (header 1 null p))) l (some (header 1 null null)))
                l
                (some (header 0 null null));
        })
  unfolding list_remove
  remove_run_only p v l_ne p_ne at held = ground arith

  remove_run_more :
      (n p q : Ptr) (v next : ℕ)
      → l ≢ null
      → p ≢ null
      → h.lists l ≡ some (header n p q)
      → h.nodes p ≡ some (node v next)
      → (q == p) ≡ false
      → list_remove (suc k) l p h
        ≡ done success (record {
          nodes = update h.nodes p none;
          lists =
              update
                (update h.lists l (some (header n next q)))
                l
                (some (header ((n + 2 ^ 64 - 1) % 2 ^ 64) next q));
        })
  unfolding list_remove
  remove_run_more n p q v next l_ne p_ne at held other = ground arith

  abbrev Removed : Ptr → Cells → ℕ → Heap → Type 0
  Removed p xs r g =
      (r ≡ success)
      × IsList g l xs
      × (g.nodes p ≡ none)
      × ((a : Ptr) → (a == p) ≡ false → g.nodes a ≡ h.nodes a)
      × ((a : Ptr) → (a == l) ≡ false → g.lists a ≡ h.lists a)

  remove_parts :
      {p : Ptr} {v : ℕ} {xs : Cells}
      → l ≢ null
      → h.lists l ≡ some (header (length xs + 1) p (last p xs))
      → length xs + 1 < 2 ^ 64
      → Chain h.nodes null ((p, v) ∷ xs)
      → Finishes (Removed p xs) (list_remove (suc k) l p h)
  remove_parts {p} {v} l_ne at fits (cons {xs = []} ne held out c) =
      rw (remove_run_only p v l_ne ne at held) (
        finishes (
          refl,
          record { not_null = l_ne; described = ground arith; chained = nil },
          ground arith,
          λ a o. ground arith,
          λ a o. ground arith,
        ))
  remove_parts {p} {v} l_ne at fits (cons {xs = (q, w) ∷ xs} ne held out c) =
      let other : (last q xs == p) ≡ false =
        ground (arith, has-ne (last q xs) p ((q, w) ∷ xs) (last-mem q w xs) out) in
      rw (remove_run_more _ p _ v _ l_ne ne at held other) (
        finishes (
          refl,
          record { not_null = l_ne; described = ground arith; chained = Chain-update p none out c },
          ground arith,
          λ a o. ground arith,
          λ a o. ground arith,
        ))

-- `list_remove` of the first node returns 0 and leaves the list of the other nodes, its head, tail
-- and count adjusted; the node is freed, and all other memory is as it was.
pub remove_first :
    (k : ℕ) (h : Heap) (l p : Ptr) (v : ℕ) (xs : Cells)
    → IsList h l ((p, v) ∷ xs)
    → length xs + 1 < 2 ^ 64
    → Finishes
        (λ r g.
          (r ≡ success)
          × IsList g l xs
          × (g.nodes p ≡ none)
          × ((a : Ptr) → (a == p) ≡ false → g.nodes a ≡ h.nodes a)
          × ((a : Ptr) → (a == l) ≡ false → g.lists a ≡ h.lists a))
        (list_remove (suc k) l p h)
remove_first k h l p v xs is fits =
    remove_parts k h l is.not_null (rw is.described (ground arith)) fits is.chained
