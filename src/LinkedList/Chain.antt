-- ===== src/LinkedList/Chain.antt =====
-- What a list in memory stands for: the address and the value of each node, in order.
use code_samples.Base.{
  ℕ, ◌≡◌, ◌≢◌, refl, Bool, true, false, ◌||◌, Option, none, some, List, [], ◌∷◌, ◌++◌, arith, ◌==◌,
  length,
}
use code_samples.LinkedList.Memory.{Ptr, null, Node, node, header, Heap, Nodes, update}

abbrev pub Cells : Type 0
Cells = List (Ptr × ℕ)

-- Whether an address is that of one of the cells.
abbrev pub has : Ptr → Cells → Bool
has a [] = false
has a (c ∷ xs) = a == c.0 || has a xs

-- The address of the first cell, or `stop` behind no cell.
abbrev pub first : Cells → Ptr → Ptr
first [] stop = stop
first (c ∷ xs) stop = c.0

-- The address of the last cell, or `start` for no cell.
abbrev pub last : Ptr → Cells → Ptr
last start [] = start
last start (c ∷ xs) = last c.0 xs

-- The nodes of the cells are distinct and not NULL, each leads to the next, and the last to `stop`.
pub data Chain (g : Nodes) (stop : Ptr) : Cells → Type 0 where
  nil : Chain g stop []
  cons :
      {p : Ptr} {v : ℕ} {xs : Cells}
      → p ≢ null
      → g p ≡ some (node v (first xs stop))
      → has p xs ≡ false
      → Chain g stop xs
      → Chain g stop ((p, v) ∷ xs)

-- The structure at `l` describes the cells `xs`.
pub record IsList (h : Heap) (l : Ptr) (xs : Cells) : Type 0 where
  pub not_null : l ≢ null
  pub described : h.lists l ≡ some (header (length xs) (first xs null) (last null xs))
  pub chained : Chain h.nodes null xs

-- `g` and `g'` hold the same nodes outside the cells `xs`.
abbrev pub SameOutside : Cells → Nodes → Nodes → Type 0
SameOutside xs g g' = (a : Ptr) → has a xs ≡ false → g' a ≡ g a

pub has-append : (a : Ptr) (xs ys : Cells) → has a (xs ++ ys) ≡ (has a xs || has a ys)
has-append a [] ys = refl
has-append a (c ∷ xs) ys = ground (arith, has-append a xs ys)

pub first-append : (xs ys : Cells) (stop : Ptr) → first (xs ++ ys) stop ≡ first xs (first ys stop)
first-append [] ys stop = refl
first-append (c ∷ xs) ys stop = refl

pub last-append : (start : Ptr) (xs ys : Cells) → last start (xs ++ ys) ≡ last (last start xs) ys
last-append start [] ys = refl
last-append start (c ∷ xs) ys = last-append c.0 xs ys

-- The last value of a chain whose first value is `v`.
abbrev pub last_value : ℕ → Cells → ℕ
last_value v [] = v
last_value v (c ∷ xs) = last_value c.1 xs

pub last-mem : (p : Ptr) (v : ℕ) (xs : Cells) → has (last p xs) ((p, v) ∷ xs) ≡ true
last-mem p v [] = ground arith
last-mem p v ((q, w) ∷ xs) = ground (arith, last-mem q w xs)

-- A cell's address differs from any address that is not a cell's.
pub has-ne : (a b : Ptr) (xs : Cells) → has a xs ≡ true → has b xs ≡ false → b ≢ a
has-ne a b [] m out = cc
has-ne a b (c ∷ xs) m out = ground (arith, has-ne a b xs)

module _ {g : Nodes} {stop : Ptr} where
  -- A chain survives any change that spares its own nodes.
  pub Chain-frame :
      {g' : Nodes} {xs : Cells}
      → Chain g stop xs
      → ((a : Ptr) → has a xs ≡ true → g' a ≡ g a)
      → Chain g' stop xs
  Chain-frame nil same = nil
  Chain-frame (cons {p} ne at out c) same =
      cons ne (ground (arith, same p)) out (Chain-frame c λ a m. same a (ground arith))

  pub Chain-update :
      {xs : Cells} (p : Ptr) (n : Option Node)
      → has p xs ≡ false
      → Chain g stop xs
      → Chain (update g p n) stop xs
  Chain-update p n out c = Chain-frame c λ a m. ground arith

  -- An address that holds no node belongs to no chain.
  pub Chain-unused : {xs : Cells} (p : Ptr) → Chain g stop xs → g p ≡ none → has p xs ≡ false
  Chain-unused p nil unused = refl
  Chain-unused p (cons ne at out c) unused = ground (arith, Chain-unused p c unused)

  pub Chain-append :
      {ys xs : Cells}
      → Chain g (first ys stop) xs
      → Chain g stop ys
      → ((a : Ptr) → has a xs ≡ true → has a ys ≡ false)
      → Chain g stop (xs ++ ys)
  Chain-append nil d apart = d
  Chain-append {ys} (cons {p} {xs} ne at out c) d apart =
      cons ne (rw (first-append xs ys stop) at) (ground (arith, has-append p xs ys, apart p))
        (Chain-append c d λ a m. apart a (ground arith))

  pub Chain-last :
      {p : Ptr} {v : ℕ} {xs : Cells}
      → p ≢ null
      → g p ≡ some (node v (first xs stop))
      → Chain g stop xs
      → (last p xs ≢ null) × (g (last p xs) ≡ some (node (last_value v xs) stop))
  Chain-last ne at nil = (ne, at)
  Chain-last _ _ (cons ne at out c) = Chain-last ne at c

  -- Writing the last node's successor moves the end of the chain.
  pub Chain-relink :
      {p : Ptr} {v : ℕ} {xs : Cells} (q : Ptr)
      → p ≢ null
      → g p ≡ some (node v (first xs stop))
      → has p xs ≡ false
      → Chain g stop xs
      → Chain (update g (last p xs) (some (node (last_value v xs) q))) q ((p, v) ∷ xs)
  Chain-relink q ne at out nil = cons ne (ground arith) refl nil
  Chain-relink q ne at out (cons {p = r} {v = w} {xs} ne' at' out' c) =
      cons ne (ground (arith, has-ne _ _ ((r, w) ∷ xs) (last-mem r w xs) out)) out
        (Chain-relink q ne' at' out' c)
