-- ===== src/LinkedList/RemoveIf.antt =====
-- `list_remove_if`: the nodes that it keeps, and its loop behind a kept node.
pub mod Whole
use code_samples.Base.{
  ℕ, zero, suc, ◌+◌, ◌-◌, ◌%◌, ◌^◌, ◌≤◌, ◌<◌, ◌≡◌, ◌≢◌, refl, Bool, true, false, ◌||◌, not, none,
  some, [], ◌∷◌, arith, ◌==◌, length, if◌then◌else◌, Bool-cases, inl, inr, ap,
}
use code_samples.LinkedList.Memory.{
  Ptr, null, node, Header, header, Heap, done, fault, update, Finishes, finishes, Finishes-mono,
  Finishes-after, Nodes,
}
use code_samples.LinkedList.Chain.{
  Cells, has, first, last, Chain, nil, cons, IsList, Chain-update, has-ne, last-mem, SameOutside,
}
use code_samples.LinkedList.Access.{ne_test, read_node-done, read_list-done}
use code_samples.LinkedList.{list_remove_if, remove_if_loop, unlink, success, list_add}

-- The cells that a scan keeps: a match is dropped, and a callback that clears
-- `continue_processing` ends the scan behind its node.
unfoldable pub kept : (Ptr → ℕ → Bool × Bool) → Cells → Cells
kept test [] = []
kept test ((p, v) ∷ xs) =
    let rest = if (test p v).1 then kept test xs else xs in
    if (test p v).0 then rest else (p, v) ∷ rest

pub has-kept :
    (test : Ptr → ℕ → Bool × Bool) (a : Ptr) (xs : Cells)
    → has a xs ≡ false
    → has a (kept test xs) ≡ false
unfolding kept
has-kept test a [] out = refl
has-kept test a ((p, v) ∷ xs) out = ground (arith, has-kept test a xs)

pub length-kept : (test : Ptr → ℕ → Bool × Bool) (xs : Cells) → length (kept test xs) ≤ length xs
unfolding kept
length-kept test [] = omega arith
length-kept test ((p, v) ∷ xs) = ground (arith, length-kept test xs)

module _ (h : Heap) (l : Ptr) (l_ne : l ≢ null) where
  -- `unlink` at the head of the list, and behind a kept node.
  unlink_head :
      (s : Header) (p next : Ptr) (v : ℕ)
      → p ≢ null
      → h.lists l ≡ some s
      → s.head ≡ p
      → h.nodes p ≡ some (node v next)
      → unlink l null p h
        ≡ done tt (record {
          nodes = update h.nodes p none;
          lists =
              update
                (update h.lists l (some (record s { head = next })))
                l
                (some (header ((s.count + 2 ^ 64 - 1) % 2 ^ 64) next s.tail));
        })
  unfolding unlink
  unlink_head s p next v p_ne at head_at held = ground arith

  unlink_behind :
      (s : Header) (q p next : Ptr) (u v : ℕ)
      → q ≢ null
      → p ≢ null
      → (p == q) ≡ false
      → h.lists l ≡ some s
      → h.nodes q ≡ some (node u p)
      → h.nodes p ≡ some (node v next)
      → unlink l q p h
        ≡ done tt (record {
          nodes = update (update h.nodes q (some (node u next))) p none;
          lists = update h.lists l (some (record s { count = (s.count + 2 ^ 64 - 1) % 2 ^ 64 }));
        })
  unfolding unlink
  unlink_behind s q p next u v q_ne p_ne other at held_q held_p = ground arith

-- What a scan leaves of the structure `s` at `l`, of the other lists and of the dropped nodes.
record Swept (h g : Heap) (l : Ptr) (s : Header) (head : Ptr) (xs ys : Cells) : Type 0 where
  described : g.lists l ≡ some (header (s.count + length ys - length xs) head s.tail)
  others : (a : Ptr) → (a == l) ≡ false → g.lists a ≡ h.lists a
  gone : (a : Ptr) → has a xs ≡ true → has a ys ≡ false → g.nodes a ≡ none

-- What is kept of the rest, if the scan goes on or not.
abbrev sweep : (Ptr → ℕ → Bool × Bool) → Bool → Cells → Cells
sweep test more xs = if more then kept test xs else xs

module _ (test : Ptr → ℕ → Bool × Bool) (l : Ptr) (l_ne : l ≢ null) where
  abbrev Behind : Heap → Header → Ptr → ℕ → Bool → Cells → ℕ → Heap → Type 0
  Behind h s q u more xs r g =
      (r ≡ success)
      × Chain g.nodes null ((q, u) ∷ sweep test more xs)
      × SameOutside ((q, u) ∷ xs) h.nodes g.nodes
      × Swept h g l s s.head xs (sweep test more xs)

  stop-Behind :
      (h : Heap) (s : Header) (q : Ptr) (u : ℕ) {xs : Cells}
      → q ≢ null
      → h.nodes q ≡ some (node u (first xs null))
      → has q xs ≡ false
      → Chain h.nodes null xs
      → h.lists l ≡ some s
      → (more : Bool) → sweep test more xs ≡ xs
      → Behind h s q u more xs success h
  stop-Behind h s q u {xs} q_ne held out c at more all = rw all (
    refl,
    cons q_ne held out c,
    λ a o. refl,
    record { described = ground arith; others = λ a o. refl; gone = λ a m o. cc },
  )

  -- The heap and the structure behind `unlink_behind`.
  abbrev without : Heap → Header → Ptr → ℕ → Ptr → Ptr → Heap
  without h s q u p next = record {
    nodes = update (update h.nodes q (some (node u next))) p none;
    lists = update h.lists l (some (record s { count = (s.count + 2 ^ 64 - 1) % 2 ^ 64 }));
  }

  abbrev fewer : Header → Header
  fewer s = record s { count = (s.count + 2 ^ 64 - 1) % 2 ^ 64 }

  length-sweep : (more : Bool) (xs : Cells) → length (sweep test more xs) ≤ length xs
  length-sweep true xs = length-kept test xs
  length-sweep false xs = omega arith

  has-sweep :
      (more : Bool) (a : Ptr) (xs : Cells) → has a xs ≡ false → has a (sweep test more xs) ≡ false
  has-sweep true a xs out = has-kept test a xs out
  has-sweep false a xs out = out

  kept-hit :
      (p : Ptr) (v : ℕ) (xs : Cells)
      → (test p v).0 ≡ true
      → kept test ((p, v) ∷ xs) ≡ sweep test (test p v).1 xs
  unfolding kept
  kept-hit p v xs hit = rw hit

  kept-miss :
      (p : Ptr) (v : ℕ) (xs : Cells)
      → (test p v).0 ≡ false
      → kept test ((p, v) ∷ xs) ≡ (p, v) ∷ sweep test (test p v).1 xs
  unfolding kept
  kept-miss p v xs miss = rw miss

  Behind-hit :
      (h : Heap) (s : Header) (q p : Ptr) (u v : ℕ) (xs : Cells) (r : ℕ) (g : Heap)
      → (test p v).0 ≡ true
      → has q ((p, v) ∷ xs) ≡ false
      → has p xs ≡ false
      → suc (length xs) ≤ s.count
      → s.count < 2 ^ 64
      → Behind (without h s q u p (first xs null)) (fewer s) q u (test p v).1 xs r g
      → Behind h s q u true ((p, v) ∷ xs) r g
  Behind-hit h s q p u v xs r g hit out out' enough fits (e, c, same, swept) =
      rw (kept-hit p v xs hit) (
        e,
        c,
        λ a o. ground (arith, same a),
        record {
          described = rw swept.described (ground (arith, length-sweep (test p v).1 xs));
          others = λ a o. ground (arith, swept.others a o);
          gone = λ a m o. elim (Bool-cases (a == p)) [
            | inl e ↦ ground (arith, same p)
            | inr other ↦ swept.gone a (ground arith) o
          ];
        },
      )

  Behind-miss :
      (h : Heap) (s : Header) (q p : Ptr) (u v : ℕ) (xs : Cells) (r : ℕ) (g : Heap)
      → (test p v).0 ≡ false
      → q ≢ null
      → h.nodes q ≡ some (node u p)
      → has q ((p, v) ∷ xs) ≡ false
      → Behind h s p v (test p v).1 xs r g
      → Behind h s q u true ((p, v) ∷ xs) r g
  Behind-miss h s q p u v xs r g miss q_ne held out (e, c, same, swept) =
      rw (kept-miss p v xs miss) (
        e,
        cons q_ne (ground (arith, same q)) (ground (arith, has-sweep (test p v).1 q xs)) c,
        λ a o. same a (ground arith),
        record {
          described = rw swept.described (ground arith);
          others = swept.others;
          gone = λ a m o. swept.gone a (ground arith) (ground arith);
        },
      )

  loop-Behind :
      (k : ℕ) (h : Heap) (s : Header) (q : Ptr) (u : ℕ) {xs : Cells} (more : Bool)
      → q ≢ null
      → h.nodes q ≡ some (node u (first xs null))
      → has q xs ≡ false
      → Chain h.nodes null xs
      → h.lists l ≡ some s
      → length xs ≤ s.count
      → s.count < 2 ^ 64
      → length xs < k
      → Finishes (Behind h s q u more xs) (remove_if_loop k l test q (first xs null) more h)
  unfolding remove_if_loop kept
  loop-Behind zero h s q u more q_ne held out c at enough fits fuel = absurd (omega arith)
  loop-Behind (suc k) h s q u true q_ne held out nil at enough fits fuel =
      finishes (stop-Behind h s q u q_ne held out nil at true refl)
  loop-Behind (suc k) h s q u false q_ne held out nil at enough fits fuel =
      finishes (stop-Behind h s q u q_ne held out nil at false refl)
  loop-Behind (suc k) h s q u false q_ne held out (cons ne at' out' c) at enough fits fuel =
      rw (ne_test ne)
        (finishes (stop-Behind h s q u q_ne held out (cons ne at' out' c) at false refl))
  loop-Behind (suc k) h s q u true q_ne held out (cons {p} {v} {xs} ne at' out' c) at enough fits
        fuel =
      rw (ne_test ne, read_node-done h ne at')
        (elim (Bool-cases (test p v).0) [
          | inl hit ↦
              rw
                (
                  hit,
                  unlink_behind h l l_ne s q p (first xs null) u v q_ne ne (ground arith) at held
                      at',
                )
                (Finishes-mono
                  (loop-Behind k (without h s q u p (first xs null)) (fewer s) q u (test p v).1 q_ne
                    (ground arith) (ground arith)
                    (Chain-update p none out' (Chain-update q _ (ground arith) c)) (ground arith)
                    (ground arith) (ground arith) (omega arith))
                  λ r g b. Behind-hit h s q p u v xs r g hit out out' enough fits b)
          | inr miss ↦ rw miss (
              Finishes-mono
                (loop-Behind k h s p v (test p v).1 ne at' out' c at (omega arith) fits
                  (omega arith))
                λ r g b. Behind-miss h s q p u v xs r g miss q_ne held out b)
        ])
