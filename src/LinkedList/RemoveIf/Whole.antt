-- ===== src/LinkedList/RemoveIf/Whole.antt =====
-- `list_remove_if` from the head of the list, and the tail that it forgets.
use code_samples.Base.{
  ℕ, zero, suc, ◌+◌, ◌-◌, ◌%◌, ◌^◌, ◌≤◌, ◌<◌, ◌≡◌, ◌≢◌, refl, Bool, true, false, none, some, ◌∷◌,
  arith, ◌==◌, length, Bool-cases, inl, inr,
}
use code_samples.LinkedList.Memory.{
  Ptr, null, Header, header, Heap, update, Finishes, finishes, Finishes-mono,
}
use code_samples.LinkedList.Chain.{
  Cells, has, first, last, Chain, nil, cons, IsList, Chain-update, SameOutside,
}
use code_samples.LinkedList.Access.{ne_test, read_node-done, read_list-done}
use code_samples.LinkedList.{list_remove_if, remove_if_loop, success}
use code_samples.LinkedList.RemoveIf.{
  kept, Swept, sweep, length-sweep, kept-hit, kept-miss, unlink_head, loop-Behind,
}

module _ (test : Ptr → ℕ → Bool × Bool) (l : Ptr) (l_ne : l ≢ null) where
  abbrev AtHead : Heap → Header → Bool → Cells → ℕ → Heap → Type 0
  AtHead h s more xs r g =
      (r ≡ success)
      × Chain g.nodes null (sweep test more xs)
      × SameOutside xs h.nodes g.nodes
      × Swept h g l s (first (sweep test more xs) null) xs (sweep test more xs)

  stop_head :
      (h : Heap) (s : Header) {xs : Cells}
      → Chain h.nodes null xs
      → h.lists l ≡ some s
      → s.head ≡ first xs null
      → (more : Bool) → sweep test more xs ≡ xs
      → AtHead h s more xs success h
  stop_head h s {xs} c at head_at more all = rw all (
    refl,
    c,
    λ a o. refl,
    record { described = ground arith; others = λ a o. refl; gone = λ a m o. cc },
  )

  -- The heap and the structure behind `unlink` at the head.
  abbrev shorter : Header → Ptr → Header
  shorter s next = header ((s.count + 2 ^ 64 - 1) % 2 ^ 64) next s.tail

  abbrev without_head : Heap → Header → Ptr → Ptr → Heap
  without_head h s p next = record {
    nodes = update h.nodes p none;
    lists = update (update h.lists l (some (record s { head = next }))) l (some (shorter s next));
  }

  head_hit :
      (h : Heap) (s : Header) (p : Ptr) (v : ℕ) (xs : Cells) (r : ℕ) (g : Heap)
      → (test p v).0 ≡ true
      → has p xs ≡ false
      → suc (length xs) ≤ s.count
      → s.count < 2 ^ 64
      → AtHead (without_head h s p (first xs null)) (shorter s (first xs null)) (test p v).1 xs r g
      → AtHead h s true ((p, v) ∷ xs) r g
  head_hit h s p v xs r g hit out enough fits (e, c, same, swept) =
      rw (kept-hit test l l_ne p v xs hit) (
        e,
        c,
        λ a o. ground (arith, same a),
        record {
          described = rw swept.described (ground (arith, length-sweep test l l_ne (test p v).1 xs));
          others = λ a o. ground (arith, swept.others a o);
          gone = λ a m o. elim (Bool-cases (a == p)) [
            | inl e ↦ ground (arith, same p)
            | inr other ↦ swept.gone a (ground arith) o
          ];
        },
      )

  head_miss :
      (h : Heap) (s : Header) (p : Ptr) (v : ℕ) (xs : Cells) (r : ℕ) (g : Heap)
      → (test p v).0 ≡ false
      → s.head ≡ p
      → (r ≡ success)
        × Chain g.nodes null ((p, v) ∷ sweep test (test p v).1 xs)
        × SameOutside ((p, v) ∷ xs) h.nodes g.nodes
        × Swept h g l s s.head xs (sweep test (test p v).1 xs)
      → AtHead h s true ((p, v) ∷ xs) r g
  head_miss h s p v xs r g miss head_at (e, c, same, swept) =
      rw (kept-miss test l l_ne p v xs miss) (
        e,
        c,
        same,
        record {
          described = rw swept.described (ground arith);
          others = swept.others;
          gone = λ a m o. swept.gone a (ground arith) (ground arith);
        },
      )

  loop_head :
      (k : ℕ) (h : Heap) (s : Header) {xs : Cells} (more : Bool)
      → Chain h.nodes null xs
      → h.lists l ≡ some s
      → s.head ≡ first xs null
      → length xs ≤ s.count
      → s.count < 2 ^ 64
      → length xs < k
      → Finishes (AtHead h s more xs) (remove_if_loop k l test null (first xs null) more h)
  unfolding remove_if_loop kept
  loop_head zero h s more c at head_at enough fits fuel = absurd (omega arith)
  loop_head (suc k) h s true nil at head_at enough fits fuel =
      finishes (stop_head h s nil at head_at true refl)
  loop_head (suc k) h s false nil at head_at enough fits fuel =
      finishes (stop_head h s nil at head_at false refl)
  loop_head (suc k) h s false (cons ne at' out' c) at head_at enough fits fuel =
      rw (ne_test ne) (finishes (stop_head h s (cons ne at' out' c) at head_at false refl))
  loop_head (suc k) h s true (cons {p} {v} {xs} ne at' out' c) at head_at enough fits fuel =
      let next = first xs null in
      rw (ne_test ne, read_node-done h ne at')
        (elim (Bool-cases (test p v).0) [
          | inl hit ↦
              rw (hit, unlink_head h l l_ne s p next v ne at head_at at')
                (Finishes-mono
                  (loop_head k (without_head h s p next) (shorter s next) (test p v).1
                    (Chain-update p none out' c) (ground arith) refl (ground arith) (ground arith)
                    (omega arith))
                  λ r g b. head_hit h s p v xs r g hit out' enough fits b)
          | inr miss ↦ rw miss (
              Finishes-mono
                (loop-Behind test l l_ne k h s p v (test p v).1 ne at' out' c at (omega arith) fits
                  (omega arith))
                λ r g b. head_miss h s p v xs r g miss head_at b)
        ])

  -- The list behind `list_remove_if`, with the tail of the list before it.
  pub remove_if_run :
      (k : ℕ) (h : Heap) (xs : Cells)
      → IsList h l xs
      → length xs < 2 ^ 64
      → length xs < k
      → Finishes
          (λ r g.
            (r ≡ success)
            × Chain g.nodes null (kept test xs)
            × (g.lists l
                ≡ some (header (length (kept test xs)) (first (kept test xs) null) (last null xs)))
            × SameOutside xs h.nodes g.nodes
            × ((a : Ptr) → (a == l) ≡ false → g.lists a ≡ h.lists a)
            × ((a : Ptr) → has a xs ≡ true → has a (kept test xs) ≡ false → g.nodes a ≡ none))
          (list_remove_if k l (some test) h)
  unfolding list_remove_if
  remove_if_run k h xs is fits fuel =
      rw (ne_test is.not_null, read_list-done h is.not_null is.described)
        (Finishes-mono (loop_head k h _ true is.chained is.described refl (omega arith) fits fuel)
          λ r g (e, c, same, swept).
            (e, c, rw swept.described (ground arith), same, swept.others, swept.gone))
