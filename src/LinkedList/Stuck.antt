-- ===== src/LinkedList/Stuck.antt =====
-- The loops of `list_find`, `list_foreach` and `list_remove` that never advance: what they do with
-- the first node, and that they go no further.
use code_samples.Base.{
  Bool-cases, inl, inr, if◌then◌else◌, ℕ, zero, suc, ◌≡◌, ◌≢◌, refl, true, false, Bool, some, ◌∷◌,
  arith, ◌==◌,
}
use code_samples.LinkedList.Memory.{Ptr, null, node, Heap, done, unfinished}
use code_samples.LinkedList.Chain.{Cells, first, Chain, cons, IsList}
use code_samples.LinkedList.Access.{ne_test, read_node-done, read_list-done}
use code_samples.LinkedList.{
  list_find, find_loop, list_foreach, foreach_loop, list_remove, remove_loop,
}

module _ (h : Heap) (l p : Ptr) (v : ℕ) (xs : Cells) (is : IsList h l ((p, v) ∷ xs)) where
  p_ne : p ≢ null
  p_ne = of_chain is.chained
    where
      of_chain : Chain h.nodes null ((p, v) ∷ xs) → p ≢ null
      of_chain (cons ne at out c) = ne

  p_at : h.nodes p ≡ some (node v (first xs null))
  p_at = of_chain is.chained
    where
      of_chain : Chain h.nodes null ((p, v) ∷ xs) → h.nodes p ≡ some (node v (first xs null))
      of_chain (cons ne at out c) = at

  find_loop_stuck :
      (k : ℕ) (test : Ptr → ℕ → Bool) → test p v ≡ false → find_loop k test p h ≡ unfinished
  unfolding find_loop
  find_loop_stuck zero test miss = refl
  find_loop_stuck (suc k) test miss =
      rw (ne_test p_ne, read_node-done h p_ne p_at, miss) (find_loop_stuck k test miss)

  -- On a non-empty list `list_find` returns the first node if it matches; if it does not match, no
  -- number of rounds is enough, whatever the other nodes are.
  pub find_first_only :
      (k : ℕ) (test : Ptr → ℕ → Bool)
      → list_find (suc k) l (some test) h ≡ (if test p v then done p h else unfinished)
  unfolding list_find
  find_first_only k test = elim (Bool-cases (test p v)) [
    | inl hit ↦ rw (
      ne_test is.not_null,
      read_list-done h is.not_null is.described,
      ne_test p_ne,
      read_node-done h p_ne p_at,
      hit,
    )
    | inr miss ↦
        rw (ne_test is.not_null, read_list-done h is.not_null is.described, miss)
          (find_loop_stuck (suc k) test miss)
  ]

  remove_loop_stuck : (k : ℕ) (n : Ptr) → (p == n) ≡ false → remove_loop k l n null p h ≡ unfinished
  unfolding remove_loop
  remove_loop_stuck zero n other = refl
  remove_loop_stuck (suc k) n other = rw (ne_test p_ne, other) (remove_loop_stuck k n other)

  -- `list_remove` of a node that is not the first one of a non-empty list finishes within no number
  -- of rounds, also where the node is of the list.
  pub remove_not_first : (k : ℕ) (n : Ptr) → n ≢ null → n ≢ p → list_remove k l n h ≡ unfinished
  unfolding list_remove
  remove_not_first k n n_ne other =
      rw (ne_test is.not_null, ne_test n_ne, read_list-done h is.not_null is.described)
        (remove_loop_stuck k n (ground arith))

  foreach_loop_stuck :
      {S : Type 0} (k : ℕ) (action : ℕ → S → Bool × S)
      → ((s : S) → (action v s).0 ≡ true)
      → (s : S) → foreach_loop k action p s h ≡ unfinished
  unfolding foreach_loop
  foreach_loop_stuck zero action goes s = refl
  foreach_loop_stuck (suc k) action goes s =
      rw (ne_test p_ne, read_node-done h p_ne p_at, goes s)
        (foreach_loop_stuck k action goes (action v s).1)

  -- `list_foreach` with an action that asks to go on at the first value finishes within no number
  -- of rounds.
  pub foreach_stuck :
      {S : Type 0} (k : ℕ) (action : ℕ → S → Bool × S) (s : S)
      → ((t : S) → (action v t).0 ≡ true)
      → list_foreach k l (some action) s h ≡ unfinished
  unfolding list_foreach
  foreach_stuck k action s goes =
      rw (ne_test is.not_null, read_list-done h is.not_null is.described)
        (foreach_loop_stuck k action goes s)
