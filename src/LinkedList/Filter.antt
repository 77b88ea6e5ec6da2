-- ===== src/LinkedList/Filter.antt =====
-- What `list_remove_if` leaves: a list again where the last node stays, and a dangling tail where
-- it goes.
use code_samples.Base.{
  ℕ, ◌^◌, ◌<◌, ◌≡◌, ◌≢◌, Bool, true, false, none, some, arith, ◌==◌, length, sym,
}
use code_samples.LinkedList.Memory.{
  Ptr, null, header, Heap, fault, Finishes, finishes, Finishes-mono, ◌>>◌, Run, after,
}
use code_samples.LinkedList.Chain.{Cells, has, first, last, Chain, IsList, SameOutside}
use code_samples.LinkedList.{list_remove_if, success, list_add}
use code_samples.LinkedList.RemoveIf.{kept}
use code_samples.LinkedList.RemoveIf.Whole.{remove_if_run}

module _ (k : ℕ) (h : Heap) (l : Ptr) (xs : Cells) (test : Ptr → ℕ → Bool × Bool)
    (is : IsList h l xs) (fits : length xs < 2 ^ 64) (fuel : length xs < k) where
  -- If the last node of the list stays the last one, `list_remove_if` returns 0 and leaves the list
  -- of the nodes that the callback keeps, head, tail and count included; it frees exactly the
  -- others, and writes no other memory.
  pub remove_if-kept :
      last null (kept test xs) ≡ last null xs
      → Finishes
          (λ r g.
            (r ≡ success)
            × IsList g l (kept test xs)
            × ((a : Ptr) → has a xs ≡ true → has a (kept test xs) ≡ false → g.nodes a ≡ none)
            × SameOutside xs h.nodes g.nodes
            × ((a : Ptr) → (a == l) ≡ false → g.lists a ≡ h.lists a))
          (list_remove_if k l (some test) h)
  remove_if-kept stays =
      Finishes-mono (remove_if_run test l is.not_null k h xs is fits fuel)
        λ r g (e, c, at, same, others, gone). (
          e,
          record { not_null = is.not_null; described = ground arith; chained = c },
          gone,
          same,
          others,
        )

  add_after :
      (fresh : Ptr) (v : ℕ) (g : Heap) {n p q : ℕ}
      → fresh ≢ null
      → q ≢ null
      → q ≢ fresh
      → g.lists l ≡ some (header n p q)
      → g.nodes q ≡ none
      → list_add fresh l v g ≡ fault
  unfolding list_add
  add_after fresh v g fresh_ne q_ne other at freed = let l_ne = is.not_null in ground arith

  -- If `list_remove_if` removes the last node of the list, the list's tail dangles: the next
  -- `list_add` writes to the freed node.
  pub add-remove_if_fault :
      (fresh : Ptr) (v : ℕ)
      → has (last null xs) xs ≡ true
      → has (last null xs) (kept test xs) ≡ false
      → last null xs ≢ null
      → fresh ≢ null
      → fresh ≢ last null xs
      → (list_remove_if k l (some test) >> list_add fresh l v) h ≡ fault
  add-remove_if_fault fresh v there removed last_ne fresh_ne other =
      faults (remove_if_run test l is.not_null k h xs is fits fuel)
    where
      faults :
          {r : Run ℕ}
          → Finishes
              (λ r g.
                (r ≡ success)
                × Chain g.nodes null (kept test xs)
                × (g.lists l
                    ≡ some
                        (header (length (kept test xs)) (first (kept test xs) null) (last null xs)))
                × SameOutside xs h.nodes g.nodes
                × ((a : Ptr) → (a == l) ≡ false → g.lists a ≡ h.lists a)
                × ((a : Ptr) → has a xs ≡ true → has a (kept test xs) ≡ false → g.nodes a ≡ none))
              r
          → after r (λ _. list_add fresh l v) ≡ fault
      faults (finishes {h = g} (e, c, at, same, others, gone)) =
          add_after fresh v g fresh_ne last_ne (λ e. other (sym e)) at (gone _ there removed)
