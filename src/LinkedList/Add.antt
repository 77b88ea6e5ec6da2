-- ===== src/LinkedList/Add.antt =====
-- `list_create` and `list_add`.
use code_samples.Base.{
  ℕ, ◌+◌, ◌%◌, ◌^◌, ◌<◌, ◌≡◌, ◌≢◌, ◌⊎◌, refl, false, none, some, [], ◌∷◌, ◌++◌, arith, ◌==◌, length,
  length-append,
}
use code_samples.LinkedList.Memory.{Ptr, null, node, header, Heap, done, update, Finishes, finishes}
use code_samples.LinkedList.Chain.{
  Cells, has, first, last, last_value, Chain, nil, cons, IsList, SameOutside, last-append, has-ne,
  last-mem, Chain-update, Chain-unused, Chain-append, Chain-last, Chain-relink,
}
use code_samples.LinkedList.Access.{ne_test}
use code_samples.LinkedList.{list_create, list_add}

-- What the other lists' structures and the nodes outside `xs` keep.
abbrev pub Untouched : Ptr → Cells → Heap → Heap → Type 0
Untouched l xs h g =
    SameOutside xs h.nodes g.nodes × ((a : Ptr) → (a == l) ≡ false → g.lists a ≡ h.lists a)

-- `list_create` with memory makes the empty list at the new address.
create-IsList :
    (fresh : Ptr) (h : Heap)
    → fresh ≢ null
    → Finishes (λ r g. (r ≡ fresh) × IsList g r [] × Untouched fresh [] h g) (list_create fresh h)
unfolding list_create
create-IsList fresh h ne = rw (ne_test ne) (
    finishes (
      refl,
      record { not_null = ne; described = ground arith; chained = nil },
      (λ a out. refl, λ a other. ground arith),
    ))

module _ (h : Heap) (l : Ptr) (fresh : Ptr) (v : ℕ) (ne : fresh ≢ null)
    (unused : h.nodes fresh ≡ none) where
  abbrev Added : Cells → Ptr → Heap → Type 0
  Added xs r g =
      (r ≡ fresh) × IsList g l (xs ++ (fresh, v) ∷ []) × Untouched l ((fresh, v) ∷ xs) h g

  -- The heap that `list_add` leaves: `nodes` and `lists` are what its writes make of the old ones.
  add_run_empty :
      l ≢ null
      → h.lists l ≡ some (header 0 null null)
      → list_add fresh l v h
        ≡ done fresh (record {
          nodes = update h.nodes fresh (some (node v null));
          lists =
              update
                (update h.lists l (some (header 0 fresh null)))
                l
                (some (header 1 fresh fresh));
        })
  unfolding list_add
  add_run_empty l_ne at = ground arith

  add_run_behind :
      (n p q : Ptr) (w : ℕ)
      → l ≢ null
      → h.lists l ≡ some (header n p q)
      → q ≢ null
      → (q == fresh) ≡ false
      → h.nodes q ≡ some (node w null)
      → list_add fresh l v h
        ≡ done fresh (record {
          nodes = update (update h.nodes fresh (some (node v null))) q (some (node w fresh));
          lists = update h.lists l (some (header ((n + 1) % 2 ^ 64) p fresh));
        })
  unfolding list_add
  add_run_behind n p q w l_ne at q_ne other held = ground arith

  add_to_empty : IsList h l [] → Finishes (Added []) (list_add fresh l v h)
  add_to_empty is = rw (add_run_empty is.not_null is.described) (
      finishes (
        refl,
        record {
          not_null = is.not_null;
          described = ground arith;
          chained = cons ne (ground arith) refl nil;
        },
        (λ a out. ground arith, λ a other. ground arith),
      ))

  -- The chain after the two writes: the new node, and the old last node's successor.
  Chain-behind :
      {p : Ptr} {w : ℕ} {xs : Cells}
      → p ≢ null
      → h.nodes p ≡ some (node w (first xs null))
      → has p xs ≡ false
      → Chain h.nodes null xs
      → has fresh ((p, w) ∷ xs) ≡ false
      → Chain
          (update
            (update h.nodes fresh (some (node v null)))
            (last p xs)
            (some (node (last_value w xs) fresh)))
          null
          ((p, w) ∷ (xs ++ (fresh, v) ∷ []))
  Chain-behind {p} {w} {xs} p_ne at out c apart =
      let other : (last p xs == fresh) ≡ false =
        ground (arith, has-ne (last p xs) fresh ((p, w) ∷ xs) (last-mem p w xs) apart) in
      Chain-append {ys = (fresh, v) ∷ []}
        (Chain-relink fresh p_ne (ground arith) out (Chain-update fresh _ (ground arith) c))
        (cons ne (ground arith) refl nil)
        (λ a m. ground (arith, has-ne a fresh ((p, w) ∷ xs) m apart))

  add_behind :
      {p : Ptr} {w : ℕ} {xs : Cells}
      → l ≢ null
      → h.lists l ≡ some (header (length xs + 1) p (last p xs))
      → Chain h.nodes null ((p, w) ∷ xs)
      → length xs + 2 < 2 ^ 64
      → Finishes (Added ((p, w) ∷ xs)) (list_add fresh l v h)
  add_behind {p} {w} {xs} l_ne at (cons p_ne held out c) fits =
      let apart : has fresh ((p, w) ∷ xs) ≡ false = ground (arith, Chain-unused fresh c unused) in
      let (last_ne, last_at) = Chain-last p_ne held c in
      let other : (last p xs == fresh) ≡ false =
        ground (arith, has-ne (last p xs) fresh ((p, w) ∷ xs) (last-mem p w xs) apart) in
      rw (add_run_behind _ _ _ _ l_ne at last_ne other last_at) (
        finishes (
          refl,
          record {
            not_null = l_ne;
            described =
                ground
                  (arith, length-append xs ((fresh, v) ∷ []), last-append p xs ((fresh, v) ∷ []));
            chained = Chain-behind p_ne held out c apart;
          },
          (
            λ a o. ground (arith, has-ne (last p xs) a ((p, w) ∷ xs) (last-mem p w xs)),
            λ a o. ground arith,
          ),
        ))

-- With memory for a node, `list_add` appends the value to the list and returns the new node, the
-- list's structure describing the longer list; it writes no other list's structure, and no node
-- but the new one and those of the list.
pub add-append :
    (h : Heap) (l : Ptr) (xs : Cells) (fresh : Ptr) (v : ℕ)
    → IsList h l xs
    → fresh ≢ null
    → h.nodes fresh ≡ none
    → length xs + 1 < 2 ^ 64
    → Finishes
        (λ r g.
          (r ≡ fresh) × IsList g l (xs ++ (fresh, v) ∷ []) × Untouched l ((fresh, v) ∷ xs) h g)
        (list_add fresh l v h)
add-append h l [] fresh v is ne unused fits = add_to_empty h l fresh v ne unused is
add-append h l ((p, w) ∷ xs) fresh v is ne unused fits =
    add_behind h l fresh v ne unused is.not_null (rw is.described (ground arith)) is.chained
      (omega arith)

-- Without memory, or on a NULL list, `list_add` returns NULL and writes nothing.
pub add_refused :
    (h : Heap) (l fresh : Ptr) (v : ℕ)
    → (l ≡ null) ⊎ (fresh ≡ null)
    → list_add fresh l v h ≡ done null h
unfolding list_add
add_refused h l fresh v refused = ground arith
