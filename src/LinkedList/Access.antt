-- ===== src/LinkedList/Access.antt =====
-- Reads and writes at addresses that hold something.
use code_samples.Base.{◌≡◌, ◌≢◌, false, none, some, arith, ◌==◌}
use code_samples.LinkedList.Memory.{
  Ptr, null, Node, Header, Heap, done, update, read_node, read_list, set_next, free_node, free_list,
}

pub ne_test : {p : Ptr} → p ≢ null → (p == null) ≡ false
ne_test ne = ground arith

module _ (h : Heap) {p : Ptr} (ne : p ≢ null) where
  pub read_list-done : {s : Header} → h.lists p ≡ some s → read_list p h ≡ done s h
  unfolding read_list
  read_list-done at = rw (ne_test ne, at)

  pub free_list-done :
      {s : Header}
      → h.lists p ≡ some s
      → free_list p h ≡ done tt (record h { lists = update h.lists p none })
  unfolding free_list
  free_list-done at = rw (ne_test ne, at)

  pub read_node-done : {n : Node} → h.nodes p ≡ some n → read_node p h ≡ done n h
  unfolding read_node
  read_node-done at = rw (ne_test ne, at)

  pub set_next-done :
      {n : Node} (q : Ptr)
      → h.nodes p ≡ some n
      → set_next p q h
        ≡ done tt (record h { nodes = update h.nodes p (some (record n { next = q })) })
  unfolding set_next
  set_next-done q at = rw (ne_test ne, at)

  pub free_node-done :
      {n : Node}
      → h.nodes p ≡ some n
      → free_node p h ≡ done tt (record h { nodes = update h.nodes p none })
  unfolding free_node
  free_node-done at = rw (ne_test ne, at)
