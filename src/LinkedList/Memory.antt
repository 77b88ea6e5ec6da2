-- ===== src/LinkedList/Memory.antt =====
-- The memory that c/utils/src/list.c works on: LIST_NODE and LIST structures at addresses, and
-- commands that read and write them. A command can fault, and a loop on fuel can stay unfinished.
use code_samples.Base.{ℕ, Option, none, some, ◌==◌, if◌then◌else◌}

abbrev pub Ptr : Type 0
Ptr = ℕ

pub record Node : Type 0 where
  pub value : ℕ
  pub next : Ptr

abbrev pub node : ℕ → Ptr → Node
node v p = record { value = v; next = p }

abbrev pub null : Ptr
null = 0

pub record Header : Type 0 where
  pub count : ℕ
  pub head : Ptr
  pub tail : Ptr

abbrev pub header : ℕ → Ptr → Ptr → Header
header n p q = record { count = n; head = p; tail = q }

abbrev pub Nodes : Type 0
Nodes = Ptr → Option Node

pub record Heap : Type 0 where
  pub nodes : Nodes
  pub lists : Ptr → Option Header

abbrev pub update {ℓ} : {A : Type ℓ} → (Ptr → Option A) → Ptr → Option A → Ptr → Option A
update g p c a = if a == p then c else g a

pub data Run (A : Type 0) : Type 0 where
  done : A → Heap → Run A
  fault : Run A
  unfinished : Run A

abbrev pub Command : Type 0 → Type 0
Command A = Heap → Run A

abbrev pub pure : {A : Type 0} → A → Command A
pure = done

module _ {A B : Type 0} where
  abbrev pub after : Run A → (A → Command B) → Run B
  after (done a h) k = k a h
  after fault k = fault
  after unfinished k = unfinished

  infixl 5 ◌>>=◌ ◌>>◌
  abbrev pub ◌>>=◌ : Command A → (A → Command B) → Command B
  m >>= k = λ h. after (m h) k

  abbrev pub ◌>>◌ : Command A → Command B → Command B
  m >> k = m >>= λ _. k

abbrev pub put_node : Ptr → Option Node → Command (Unit {0})
put_node p c h = done tt (record h { nodes = update h.nodes p c })

abbrev pub put_list : Ptr → Option Header → Command (Unit {0})
put_list p c h = done tt (record h { lists = update h.lists p c })

abbrev pub found {ℓ} : {A : Type 0} {B : Type ℓ} → B → (A → B) → Option A → B
found bad use_it none = bad
found bad use_it (some a) = use_it a

-- `*p`: a fault at NULL and at an address that holds nothing.
unfoldable pub read_node : Ptr → Command Node
read_node p h = if p == null then fault else found fault (λ n. done n h) (h.nodes p)

unfoldable pub read_list : Ptr → Command Header
read_list p h = if p == null then fault else found fault (λ s. done s h) (h.lists p)

-- `p->next = q`
unfoldable pub set_next : Ptr → Ptr → Command (Unit {0})
unfolding read_node
set_next p q = do n ← read_node p; put_node p (some (record n { next = q }))

unfoldable pub free_node : Ptr → Command (Unit {0})
unfolding read_node
free_node p = read_node p >> put_node p none

unfoldable pub free_list : Ptr → Command (Unit {0})
unfolding read_list
free_list p = read_list p >> put_list p none

-- Total correctness of a run: no fault, enough fuel, and a postcondition.
pub data Finishes {A : Type 0} (P : A → Heap → Type 0) : Run A → Type 0 where
  finishes : {a : A} {h : Heap} → P a h → Finishes P (done a h)

module _ {A : Type 0} {P : A → Heap → Type 0} where
  pub Finishes-after :
      {B : Type 0} {Q : B → Heap → Type 0} {r : Run A} {k : A → Command B}
      → Finishes P r
      → ((a : A) (h : Heap) → P a h → Finishes Q (k a h))
      → Finishes Q (after r k)
  Finishes-after (finishes p) next = next _ _ p

  pub Finishes-mono :
      {Q : A → Heap → Type 0} {r : Run A}
      → Finishes P r
      → ((a : A) (g : Heap) → P a g → Q a g)
      → Finishes Q r
  Finishes-mono (finishes p) weaken = finishes (weaken _ _ p)
