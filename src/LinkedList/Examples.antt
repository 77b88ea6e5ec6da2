-- ===== src/LinkedList/Examples.antt =====
-- The operations on a list of two nodes, and the theorems at that list.
use code_samples.Base.{
  ℕ, ◌≡◌, refl, Bool, true, false, none, some, [], ◌∷◌, arith, ◌==◌, leb, inr, ◌+◌,
}
use code_samples.LinkedList.Memory.{
  Ptr, null, node, header, Heap, done, fault, unfinished, Finishes, finishes, update, ◌>>=◌, ◌>>◌,
  Command, pure,
}
use code_samples.LinkedList.Chain.{Cells, nil, cons, IsList, SameOutside, has}
use code_samples.LinkedList.Add.{Untouched, add-append, add_refused}
use code_samples.LinkedList.Destroy.{destroy_frees_all}
use code_samples.LinkedList.Remove.{remove_first}
use code_samples.LinkedList.Filter.{remove_if-kept, add-remove_if_fault}
use code_samples.LinkedList.RemoveIf.{kept}
use code_samples.LinkedList.Stuck.{find_first_only, remove_not_first, foreach_stuck}
use code_samples.LinkedList.{
  list_create, list_add, list_remove, list_find, list_remove_if, list_foreach, list_destroy,
  list_get_count, list_get_head_node, list_get_next_node, list_get_node_value, success,
}

abbrev empty_heap : Heap
empty_heap = record { nodes = λ _. none; lists = λ _. none }

abbrev two_cells : Cells
two_cells = (2, 20) ∷ (1, 10) ∷ []

abbrev heap : Heap
heap = record {
  nodes = update (update (λ _. none) 2 (some (node 20 1))) 1 (some (node 10 null));
  lists = update (λ _. none) 9 (some (header 2 2 1));
}

-- Values above 15 match; the scan always goes on.
abbrev above_15 : Ptr → ℕ → Bool × Bool
above_15 p v = (leb 16 v, true)

abbrev below_15 : Ptr → ℕ → Bool × Bool
below_15 p v = (leb v 15, true)

-- Two values added to a new list, and read back by the accessors.
build_and_read : Command (ℕ × ℕ × ℕ × ℕ)
unfolding list_create list_add list_get_count list_get_head_node list_get_next_node
    list_get_node_value
build_and_read = do
  l ← list_create 9
  list_add 2 l 20
  list_add 1 l 10
  n ← list_get_count l
  p ← list_get_head_node l
  q ← list_get_next_node p
  v ← list_get_node_value p
  w ← list_get_node_value q
  pure (n, q, v, w)

build_and_read_result : Finishes (λ r g. r ≡ (2, 1, 20, 10)) (build_and_read empty_heap)
unfolding build_and_read
build_and_read_result = finishes refl

-- `list_find` stops at the first node or not at all.
find_runs :
    (list_find 5 9 (some (λ p v. v == 20)) heap ≡ done 2 heap)
    × (list_find 5 9 (some (λ p v. v == 10)) heap ≡ unfinished)
unfolding list_find
find_runs = (refl, refl)

heap-IsList : IsList heap 9 two_cells
heap-IsList = record {
  not_null = omega arith;
  described = refl;
  chained = cons (omega arith) refl refl (cons (omega arith) refl refl nil);
}

add-append_example :
    Finishes
      (λ r g.
        (r ≡ 3)
        × IsList g 9 ((2, 20) ∷ (1, 10) ∷ (3, 30) ∷ [])
        × Untouched 9 ((3, 30) ∷ two_cells) heap g)
      (list_add 3 9 30 heap)
add-append_example = add-append heap 9 two_cells 3 30 heap-IsList (omega arith) refl (omega arith)

add_refused_example : list_add 0 9 30 heap ≡ done null heap
add_refused_example = add_refused heap 9 0 30 (inr refl)

destroy_frees_all_example :
    Finishes
      (λ _ g.
        ((a : Ptr) → has a two_cells ≡ true → g.nodes a ≡ none)
        × ((a : Ptr) → has a two_cells ≡ false → g.nodes a ≡ heap.nodes a)
        × (g.lists 9 ≡ none)
        × ((a : Ptr) → (a == 9) ≡ false → g.lists a ≡ heap.lists a))
      (list_destroy 3 9 heap)
destroy_frees_all_example = destroy_frees_all 3 heap 9 two_cells heap-IsList (omega arith)

remove_first_example :
    Finishes
      (λ r g.
        (r ≡ success)
        × IsList g 9 ((1, 10) ∷ [])
        × (g.nodes 2 ≡ none)
        × ((a : Ptr) → (a == 2) ≡ false → g.nodes a ≡ heap.nodes a)
        × ((a : Ptr) → (a == 9) ≡ false → g.lists a ≡ heap.lists a))
      (list_remove 1 9 2 heap)
remove_first_example = remove_first 0 heap 9 2 20 ((1, 10) ∷ []) heap-IsList (omega arith)

remove_if-kept_example :
    Finishes
      (λ r g.
        (r ≡ success)
        × IsList g 9 (kept above_15 two_cells)
        × ((a : Ptr)
            → has a two_cells ≡ true
            → has a (kept above_15 two_cells) ≡ false
            → g.nodes a ≡ none)
        × SameOutside two_cells heap.nodes g.nodes
        × ((a : Ptr) → (a == 9) ≡ false → g.lists a ≡ heap.lists a))
      (list_remove_if 3 9 (some above_15) heap)
unfolding kept
remove_if-kept_example =
    remove_if-kept 3 heap 9 two_cells above_15 heap-IsList (omega arith) (omega arith) refl

add-remove_if_fault_example : (list_remove_if 3 9 (some below_15) >> list_add 3 9 30) heap ≡ fault
unfolding kept
add-remove_if_fault_example =
    add-remove_if_fault 3 heap 9 two_cells below_15 heap-IsList (omega arith) (omega arith) 3 30
      refl refl (omega arith) (omega arith) (omega arith)

find_first_only_example : list_find 8 9 (some (λ p v. v == 10)) heap ≡ unfinished
find_first_only_example = find_first_only heap 9 2 20 ((1, 10) ∷ []) heap-IsList 7 (λ p v. v == 10)

remove_not_first_example : list_remove 1000 9 1 heap ≡ unfinished
remove_not_first_example =
    remove_not_first heap 9 2 20 ((1, 10) ∷ []) heap-IsList 1000 1 (omega arith) (omega arith)

foreach_stuck_example :
    list_foreach 1000 9 (some (λ v (total : ℕ). (true, total + v))) 0 heap ≡ unfinished
foreach_stuck_example =
    foreach_stuck heap 9 2 20 ((1, 10) ∷ []) heap-IsList 1000 (λ v total. (true, total + v)) 0
      (λ t. refl)
