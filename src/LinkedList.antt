-- ===== src/LinkedList.antt =====
-- The operations of c/utils/src/list.c, in the order of the file. What `malloc` and `calloc`
-- return is the argument `fresh`; a function pointer that may be NULL is an `Option`. A loop runs
-- on fuel.
pub mod Access
pub mod Add
pub mod Chain
pub mod Destroy
pub mod Filter
mod Examples
pub mod Memory
pub mod Remove
pub mod RemoveIf
pub mod Stuck
use code_samples.Base.{
  ℕ, zero, suc, ◌+◌, ◌-◌, ◌%◌, ◌^◌, Bool, true, false, not, ◌||◌, Option, none, some, ◌==◌,
  if◌then◌else◌,
}
use code_samples.LinkedList.Memory.{
  Ptr, null, Node, node, Header, header, unfinished, Command, pure, ◌>>=◌, ◌>>◌, put_node, put_list,
  read_node, read_list, set_next, free_node, free_list,
}

-- `__FAILURE__` of c/utils/inc/result.h
abbrev pub failure : ℕ
failure = 1

abbrev pub success : ℕ
success = 0

unfoldable pub list_create : (fresh : Ptr) → Command Ptr
list_create fresh =
    if fresh == null then pure null else do put_list fresh (some (header 0 null null)); pure fresh

-- `list->tail->next = result`, or `list->head = result` for an empty list
unfoldable pub link_last : Ptr → Header → Ptr → Command (Unit {0})
unfolding set_next
link_last l s fresh =
    if s.tail == null then put_list l (some (record s { head = fresh })) else set_next s.tail fresh

unfoldable pub list_add : (fresh : Ptr) → Ptr → ℕ → Command Ptr
unfolding link_last read_list
list_add fresh l v = if l == null then pure null else if fresh == null then pure null else do
  put_node fresh (some (node v null))
  s ← read_list l
  link_last l s fresh
  s' ← read_list l
  put_list l (some (record s' { tail = fresh; count = (s'.count + 1) % 2 ^ 64 }))
  pure fresh

-- `list->count--`, on a 64-bit size_t
unfoldable pub decrement : Ptr → Command (Unit {0})
unfolding read_list
decrement l = do
  s ← read_list l
  put_list l (some (record s { count = (s.count + 2 ^ 64 - 1) % 2 ^ 64 }))

-- The first node is taken off: `head` moves on, and `tail` is reset if it was the only node.
unfoldable pub drop_head : Ptr → Ptr → Node → Command (Unit {0})
unfolding read_list
drop_head l current c = do
  s ← read_list l
  put_list l (some (record s { head = c.next }))
  s' ← read_list l
  if s'.tail == current then put_list l (some (record s' { tail = null })) else pure tt

-- What `list_remove` does with the node that it has found.
unfoldable pub remove_found : Ptr → Ptr → Ptr → Command ℕ
unfolding read_node drop_head set_next free_node decrement
remove_found l previous current = do
  c ← read_node current
  if previous == null then drop_head l current c else set_next previous c.next
  free_node current
  decrement l
  pure success

-- The loop of `list_remove`: neither `previous` nor `current` is ever advanced.
unfoldable pub remove_loop : ℕ → Ptr → Ptr → Ptr → Ptr → Command ℕ
unfolding remove_found
remove_loop zero l n previous current = λ _. unfinished
remove_loop (suc k) l n previous current =
    let again = remove_loop k l n previous current in
    if current == null
    then pure failure
    else if current == n
    then remove_found l previous current
    else again

unfoldable pub list_remove : (fuel : ℕ) → Ptr → Ptr → Command ℕ
unfolding remove_loop read_list
list_remove fuel l n =
    if l == null || n == null
    then pure failure
    else do s ← read_list l; remove_loop fuel l n null s.head

unfoldable pub list_get_count : Ptr → Command ℕ
unfolding read_list
list_get_count l = if l == null then pure 0 else do s ← read_list l; pure s.count

unfoldable pub list_get_head_node : Ptr → Command Ptr
unfolding read_list
list_get_head_node l = if l == null then pure null else do s ← read_list l; pure s.head

unfoldable pub list_get_next_node : Ptr → Command Ptr
unfolding read_node
list_get_next_node n = if n == null then pure null else do c ← read_node n; pure c.next

unfoldable pub list_get_node_value : Ptr → Command ℕ
unfolding read_node
list_get_node_value n = if n == null then pure null else do c ← read_node n; pure c.value

-- The callback, whose context is const, is a function of the node's handle and value. The loop never
-- advances `result`.
unfoldable pub find_loop : ℕ → (Ptr → ℕ → Bool) → Ptr → Command Ptr
unfolding read_node
find_loop zero test result = λ _. unfinished
find_loop (suc k) test result = if result == null then pure null else do
  n ← read_node result
  if test result n.value then pure result else find_loop k test result

unfoldable pub list_find : (fuel : ℕ) → Ptr → Option (Ptr → ℕ → Bool) → Command Ptr
unfolding find_loop read_list
list_find fuel l none = pure null
list_find fuel l (some test) =
    if l == null then pure null else do s ← read_list l; find_loop fuel test s.head

-- `list->head = list->head->next`
drop_first : Ptr → Command (Unit {0})
drop_first l = do
  s ← read_list l
  c ← read_node s.head
  put_list l (some (record s { head = c.next }))

-- `previous->next = current->next`
skip_over : Ptr → Ptr → Command (Unit {0})
skip_over previous current = do c ← read_node current; set_next previous c.next

-- What `list_remove_if` does with a node that matches.
unfoldable pub unlink : Ptr → Ptr → Ptr → Command (Unit {0})
unfolding drop_first skip_over read_list read_node set_next free_node decrement
unlink l previous current = do
  if previous == null then drop_first l else skip_over previous current
  free_node current
  decrement l

-- The callback returns whether the node matches, and what it leaves in `continue_processing`.
unfoldable pub remove_if_loop : ℕ → Ptr → (Ptr → ℕ → Bool × Bool) → Ptr → Ptr → Bool → Command ℕ
unfolding unlink read_node
remove_if_loop zero l test previous current continue_processing = λ _. unfinished
remove_if_loop (suc k) l test previous current continue_processing =
    if current == null || not continue_processing then pure success else do
      c ← read_node current
      let (matches, more) = test current c.value
      if matches
          then (do unlink l previous current; remove_if_loop k l test previous c.next more)
          else remove_if_loop k l test current c.next more

unfoldable pub list_remove_if : (fuel : ℕ) → Ptr → Option (Ptr → ℕ → Bool × Bool) → Command ℕ
unfolding remove_if_loop read_list
list_remove_if fuel l none = pure failure
list_remove_if fuel l (some test) =
    if l == null
    then pure failure
    else do s ← read_list l; remove_if_loop fuel l test null s.head true

-- The action's effects are on a state of its own, `S`. The loop never advances `current`.
unfoldable pub foreach_loop : {S : Type 0} → ℕ → (ℕ → S → Bool × S) → Ptr → S → Command (ℕ × S)
unfolding read_node
foreach_loop zero action current s = λ _. unfinished
foreach_loop (suc k) action current s = if current == null then pure (success, s) else do
  n ← read_node current
  let (more, s') = action n.value s
  if not more then pure (success, s') else foreach_loop k action current s'

unfoldable pub list_foreach :
    {S : Type 0} (fuel : ℕ) → Ptr → Option (ℕ → S → Bool × S) → S → Command (ℕ × S)
unfolding foreach_loop read_list
list_foreach fuel l none s = pure (failure, s)
list_foreach fuel l (some action) s =
    if l == null
    then pure (failure, s)
    else do list ← read_list l; foreach_loop fuel action list.head s

unfoldable pub destroy_loop : ℕ → Ptr → Command (Unit {0})
unfolding read_node free_node
destroy_loop zero current = λ _. unfinished
destroy_loop (suc k) current =
    if current == null
    then pure tt
    else do n ← read_node current; free_node current; destroy_loop k n.next

unfoldable pub list_destroy : (fuel : ℕ) → Ptr → Command (Unit {0})
unfolding destroy_loop read_list free_list
list_destroy fuel l =
    if l == null then pure tt else do s ← read_list l; destroy_loop fuel s.head; free_list l
