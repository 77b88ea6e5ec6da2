-- ===== src/LinkedList/Destroy.antt =====
-- `list_destroy`.
use code_samples.Base.{
  ℕ, zero, suc, ◌<◌, ◌≡◌, refl, true, false, none, arith, ◌==◌, length, ap, ◌∙◌,
}
use code_samples.LinkedList.Memory.{
  Ptr, null, Heap, update, Finishes, finishes, Finishes-mono, Finishes-after,
}
use code_samples.LinkedList.Chain.{Cells, has, first, Chain, nil, cons, IsList, Chain-update}
use code_samples.LinkedList.Access.{
  ne_test, read_node-done, free_node-done, read_list-done, free_list-done,
}
use code_samples.LinkedList.{list_destroy, destroy_loop}

-- The nodes of `xs` are freed, and the heap is otherwise the same.
pub record Freed (xs : Cells) (h g : Heap) : Type 0 where
  pub gone : (a : Ptr) → has a xs ≡ true → g.nodes a ≡ none
  pub same : (a : Ptr) → has a xs ≡ false → g.nodes a ≡ h.nodes a
  pub lists : g.lists ≡ h.lists

destroy_loop-Freed :
    (k : ℕ) (h : Heap) {xs : Cells}
    → Chain h.nodes null xs
    → length xs < k
    → Finishes (λ _ g. Freed xs h g) (destroy_loop k (first xs null) h)
unfolding destroy_loop
destroy_loop-Freed zero h c fuel = absurd (omega arith)
destroy_loop-Freed (suc k) h nil fuel =
    finishes (record { gone = λ a m. cc; same = λ a o. refl; lists = refl })
destroy_loop-Freed (suc k) h (cons {p} {xs} ne at out c) fuel =
    rw (ne_test ne, read_node-done h ne at, free_node-done h ne at)
      (Finishes-mono
        (destroy_loop-Freed k (record h { nodes = update h.nodes p none })
          (Chain-update p none out c) (omega arith))
        λ _ g freed. record {
          gone = λ a m. ground (arith, freed.gone a, freed.same a);
          same = λ a o. ground (arith, freed.same a);
          lists = freed.lists;
        })

-- With a round for each node and one more, `list_destroy` frees every node of the list and the
-- list's structure, without a fault, and leaves all other memory as it was.
pub destroy_frees_all :
    (k : ℕ) (h : Heap) (l : Ptr) (xs : Cells)
    → IsList h l xs
    → length xs < k
    → Finishes
        (λ _ g.
          ((a : Ptr) → has a xs ≡ true → g.nodes a ≡ none)
          × ((a : Ptr) → has a xs ≡ false → g.nodes a ≡ h.nodes a)
          × (g.lists l ≡ none)
          × ((a : Ptr) → (a == l) ≡ false → g.lists a ≡ h.lists a))
        (list_destroy k l h)
unfolding list_destroy
destroy_frees_all k h l xs is fuel =
    rw (ne_test is.not_null, read_list-done h is.not_null is.described)
      (Finishes-after (destroy_loop-Freed k h is.chained fuel) λ _ g freed.
        rw (free_list-done g is.not_null (ap (λ lists. lists l) freed.lists ∙ is.described)) (
          finishes (
            freed.gone,
            freed.same,
            ground arith,
            λ a other. ground (arith, ap (λ lists. lists a) freed.lists),
          )))
