-- ===== src/YoutubeSearch/Memory.antt =====
-- The memory of ytsearch.c: blocks by the number of the call that gave them, and how many of each
-- are live. The strings in them are values of the model.
use code_samples.Base.{
  ℕ, zero, suc, ◌+◌, ◌-◌, ◌==◌, Bool, Option, none, some, [], ◌∷◌, ltb, leb, if◌then◌else◌, Bytes,
  length,
}

-- What malloc and realloc answer to the call of a number.
pub record Allocator : Type 0 where
  pub mallocs : ℕ → Bool
  pub reallocs : ℕ → Bool

pub record Memory : Type 0 where
  pub next : ℕ
  pub live : ℕ → ℕ

pub record Block : Type 0 where
  pub id : ℕ
  pub text : Bytes

-- A run returns, or it uses what it may not: memory outside of a block or not live, a null pointer
-- or an uninitialised variable.
pub data Run (A : Type 0) : Type 0 where
  done : A → Memory → Run A
  fault : Memory → Run A

abbrev pub Command : Type 0 → Type 0
Command A = Memory → Run A

abbrev pub pure : {A : Type 0} → A → Command A
pure = done

module _ {A B : Type 0} where
  abbrev pub after : Run A → (A → Command B) → Run B
  after (done a s) k = k a s
  after (fault s) k = fault s

  infixl 5 ◌>>=◌ ◌>>◌
  abbrev pub ◌>>=◌ : Command A → (A → Command B) → Command B
  m >>= k = λ s. after (m s) k

  abbrev pub ◌>>◌ : Command A → Command B → Command B
  m >> k = m >>= λ _. k

-- One more live block of a number, or one less.
abbrev pub added : ℕ → (ℕ → ℕ) → ℕ → ℕ
added i live x = if x == i then live x + 1 else live x

abbrev pub removed : ℕ → (ℕ → ℕ) → ℕ → ℕ
removed i live x = if x == i then live x - 1 else live x

-- The number of a fresh block, if the call succeeds.
unfoldable pub allocate : (ℕ → Bool) → Command (Option ℕ)
allocate gives s =
    if gives s.next
    then done (some s.next) (record { next = s.next + 1; live = added s.next s.live })
    else done none (record s { next = s.next + 1 })

unfoldable pub free : ℕ → Command (Unit {0})
free i s = if ltb 0 (s.live i) then done tt (record s { live = removed i s.live }) else fault s

-- A null pointer is not freed.
abbrev pub free_if : Option ℕ → Command (Unit {0})
free_if none = pure tt
free_if (some i) = free i

module _ (a : Allocator) where
  abbrev pub malloc : Command (Option ℕ)
  malloc = allocate a.mallocs

  -- A block that moved is freed; where realloc fails the old block stays.
  unfoldable pub realloc : Option ℕ → Command (Option ℕ)
  unfolding allocate free
  realloc old = do
    fresh ← allocate a.reallocs
    elim fresh [ none ↦ pure none | some i ↦ do free_if old; pure (some i) ]

-- `sprintf` of a text with its end into a block of a size.
unfoldable pub sprintf : (size : ℕ) → Bytes → Command (Unit {0})
sprintf size text = if leb (length text + 1) size then pure tt else fault

-- The length of the string at the start of a block, if it ends in the block.
unfoldable pub strlen : Bytes → Option ℕ
strlen [] = none
strlen (zero ∷ cs) = some 0
strlen (suc c ∷ cs) = elim (strlen cs) [ none ↦ none | some n ↦ some (suc n) ]

-- A run that faults, or returns with a postcondition.
abbrev pub Leads : {A : Type 0} → (A → Type 0) → Run A → Type 0
Leads Q (done a s) = Q a
Leads Q (fault s) = Unit {0}

pub bind-Leads :
    {A B : Type 0} (Q : A → Type 0) (R : B → Type 0) (r : Run A) (k : A → Command B)
    → Leads Q r
    → ((a : A) (s : Memory) → Q a → Leads R (k a s))
    → Leads R (after r k)
bind-Leads Q R (done a s) k first rest = rest a s first
bind-Leads Q R (fault s) k first rest = tt

-- What holds of every result.
pub any-Leads : {A : Type 0} (r : Run A) → Leads (λ a. Unit {0}) r
any-Leads (done a s) = tt
any-Leads (fault s) = tt
