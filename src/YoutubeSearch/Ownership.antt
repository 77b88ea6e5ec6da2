-- ===== src/YoutubeSearch/Ownership.antt =====
-- Which blocks the results of ytsearch.c own, and what each call does to the blocks that are live.
pub mod Items
pub mod Release
use code_samples.Base.{
  ℕ, zero, suc, ◌+◌, ◌-◌, ◌≤◌, ◌<◌, ◌==◌, ◌≡◌, refl, Bool, true, false, Bool-cases, inl, inr, not,
  Option, none, some, List, [], ◌∷◌, ltb, if◌then◌else◌, arith, sym, ◌∙◌,
}
use code_samples.YoutubeSearch.Memory.{
  Allocator, Memory, Run, done, fault, Command, pure, after, ◌>>=◌, added, removed, allocate, free,
  free_if, malloc, realloc,
}

-- A run that returns, with a postcondition.
abbrev pub Ends : {A : Type 0} → (A → Memory → Type 0) → Run A → Type 0
Ends Q (done a s) = Q a s
Ends Q (fault s) = ⊥

pub bind-Ends :
    {A B : Type 0} (Q : A → Memory → Type 0) (R : B → Memory → Type 0) (r : Run A)
    (k : A → Command B)
    → Ends Q r
    → ((a : A) (s : Memory) → Q a s → Ends R (k a s))
    → Ends R (after r k)
bind-Ends Q R (done a s) k first rest = rest a s first
bind-Ends Q R (fault s) k first rest = absurd first

pub Ends-done :
    {A : Type 0} (Q : A → Memory → Type 0) (r : Run A)
    → Ends Q r
    → (a : A) × (s : Memory) × (r ≡ done a s) × Q a s
Ends-done Q (done a s) ends = (a, s, refl, ends)
Ends-done Q (fault s) ends = absurd ends

-- How many blocks of each number are live, or owned.
abbrev pub Count : Type 0
Count = ℕ → ℕ

abbrev pub Holds : Count → Memory → Type 0
Holds f s = (x : ℕ) → s.live x ≡ f x

abbrev pub one : ℕ → Count
one i x = if x == i then 1 else 0

abbrev pub one_if : Option ℕ → Count
one_if none x = 0
one_if (some i) x = one i x

infixl 20 ◌⊕◌
abbrev pub ◌⊕◌ : Count → Count → Count
(f ⊕ g) x = f x + g x

pub allocate-Ends :
    (gives : ℕ → Bool) (f : Count) (s : Memory)
    → Holds f s
    → Ends (λ r. Holds (f ⊕ one_if r)) (allocate gives s)
unfolding allocate
allocate-Ends gives f s holds = elim (Bool-cases (gives s.next)) [
  | inl fresh ↦ rw fresh (λ x. let h = holds x in ground arith)
  | inr full ↦ rw full (λ x. let h = holds x in omega arith)
]

pub free-Ends :
    (i : ℕ) (f : Count) (s : Memory) → Holds (f ⊕ one i) s → Ends (λ a. Holds f) (free i s)
unfolding free
free-Ends i f s holds =
    let h = holds i in
    let is_live : ltb 0 (s.live i) ≡ true = ground arith in
    rw is_live (λ x. let h' = holds x in ground arith)

free_if-Ends :
    (i : Option ℕ) (f : Count) (s : Memory)
    → Holds (f ⊕ one_if i) s
    → Ends (λ a. Holds f) (free_if i s)
free_if-Ends none f s holds = λ x. let h = holds x in omega arith
free_if-Ends (some i) f s holds = free-Ends i f s holds

-- A realloc that succeeds takes the old block and gives another.
pub realloc-Ends :
    (a : Allocator) (old : Option ℕ) (f : Count) (s : Memory)
    → ((n : ℕ) → a.reallocs n ≡ true)
    → Holds (f ⊕ one_if old) s
    → Ends (λ r t. (i : ℕ) × (r ≡ some i) × Holds (f ⊕ one i) t) (realloc a old s)
unfolding realloc allocate
realloc-Ends a old f s gives holds = rw (gives s.next) (
    bind-Ends (λ u. Holds (f ⊕ one s.next)) _
      (free_if old (record { next = s.next + 1; live = added s.next s.live })) _
      (free_if-Ends old (f ⊕ one s.next) _ (λ x. let h = holds x in ground arith))
      (λ u t h. (s.next, refl, h)))
