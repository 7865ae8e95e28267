-- ===== src/LinkedList.antt =====
-- pthreads/linkedlist.c: a linked list of messages on the heap, with pointers to its first and last
-- node. A loop along the list takes fuel; what `free` gives back is no node any more.
pub mod Add
pub mod Cells
pub mod Delete
pub mod DeleteList
pub mod Ends
pub mod Insert
pub mod Menu
pub mod Place
pub mod Between
pub mod Search
use tcp_and_parallel.Prelude.{
  ℕ, zero, suc, Bool, true, false, not, Option, none, some, ◌==◌, if◌then◌else◌, update,
}

-- `struct node`
pub record Node (M : Type 0) : Type 0 where
  pub message : M
  pub id : ℕ
  pub next : Option ℕ

-- The nodes by their address, and the globals `head` and `end`.
pub record Heap (M : Type 0) : Type 0 where
  pub nodes : ℕ → Option (Node M)
  pub head : Option ℕ
  pub end : Option ℕ

-- Where a loop along the list stops.
pub data Walk : Type 0 where
  found : Option ℕ → Walk
  fault : Walk  -- NULL or a node that is free is followed
  out_of_fuel : Walk

pub data Run (M : Type 0) : Type 0 where
  ok : Heap M → Run M
  fault : Run M
  out_of_fuel : Run M

abbrev pub same : Option ℕ → Option ℕ → Bool
same none none = true
same none (some b) = false
same (some a) none = false
same (some a) (some b) = a == b

-- `if (ptr == NULL) break;`
abbrev pub step_next : Option ℕ → Walk → Walk
step_next none rest = found none
step_next (some a) rest = rest

-- `equal` and `less` are `strcmp` giving 0 and less than 0.
module _ {M : Type 0} (equal less : M → M → Bool) where
  walk_at : (M → Bool) → (Option ℕ → Walk) → ℕ → Option (Node M) → Walk
  walk_at goes again a none = fault
  walk_at goes again a (some n) =
      if goes n.message then step_next n.next (again n.next) else found (some a)

  -- The loop `while (goes(ptr->message)) { ptr = ptr->next; if (ptr == NULL) break; }`
  pub walk : (M → Bool) → ℕ → Heap M → Option ℕ → Walk
  unfolding walk_at
  walk goes zero h ptr = out_of_fuel
  walk goes (suc k) h none = fault
  walk goes (suc k) h (some a) = walk_at goes (λ next. walk goes k h next) a (h.nodes a)

  pub searchname : ℕ → Heap M → Option ℕ → M → Walk
  unfolding walk
  searchname k h ptr name = walk (λ m. not (equal name m)) k h ptr

  prev_at : Option ℕ → (Option ℕ → Walk) → ℕ → Option (Node M) → Walk
  prev_at temp again a none = fault
  prev_at temp again a (some n) = if same n.next temp then found (some a) else again n.next

  -- The loop `while (prev->next != temp) prev = prev->next;`
  pub prev_of : ℕ → Heap M → Option ℕ → Option ℕ → Walk
  unfolding prev_at
  prev_of zero h temp prev = out_of_fuel
  prev_of (suc k) h temp none = fault
  prev_of (suc k) h temp (some a) = prev_at temp (λ next. prev_of k h temp next) a (h.nodes a)

  stored : ℕ → Option ℕ → Heap M → Option (Node M) → Run M
  stored a next h none = fault
  stored a next h (some n) =
      ok (record h { nodes = update h.nodes a (some (record n { next = next })) })

  set_next : ℕ → Option ℕ → Heap M → Run M
  unfolding stored
  set_next a next h = stored a next h (h.nodes a)

  and_then : Run M → (Heap M → Run M) → Run M
  and_then (ok h) f = f h
  and_then fault f = fault
  and_then out_of_fuel f = out_of_fuel

  unfoldable pub add_end : Option ℕ → ℕ → Heap M → Run M
  unfolding set_next and_then
  add_end none new h = fault
  add_end (some last) new h =
      and_then (set_next last (some new) h)
        (λ h. and_then (set_next new none h) (λ h. ok (record h { end = some new })))

  unfoldable pub add : ℕ → Heap M → Run M
  unfolding add_end
  add new h = add_end h.end new (if same h.head none then record h { head = some new } else h)

  -- The new node between `prev` and `temp`.
  pub insert_between : ℕ → Option ℕ → Walk → Heap M → Run M
  unfolding set_next and_then
  insert_between new temp fault h = fault
  insert_between new temp out_of_fuel h = out_of_fuel
  insert_between new temp (found none) h = fault
  insert_between new temp (found (some prev)) h = and_then (set_next prev (some new) h) (λ h.
      and_then (set_next new temp h)
        (λ h. ok (if same h.end (some prev) then record h { end = some new } else h)))

  -- Where the loop over smaller messages has stopped at `temp`.
  insert_at : ℕ → ℕ → Walk → Heap M → Run M
  unfolding insert_between
  insert_at k new fault h = fault
  insert_at k new out_of_fuel h = out_of_fuel
  insert_at k new (found temp) h =
      if same temp h.head
      then and_then (set_next new h.head h) (λ h. ok (record h { head = some new }))
      else insert_between new temp (prev_of k h temp h.head) h

  insert_first : ℕ → Heap M → Run M
  unfolding set_next and_then
  insert_first new h =
      and_then (set_next new none h) (λ h. ok (record h { head = some new; end = some new }))

  insert_from : ℕ → ℕ → Option (Node M) → Option ℕ → Heap M → Run M
  unfolding insert_at insert_first walk
  insert_from k new none ptr h = fault
  insert_from k new (some n) none h = insert_first new h
  insert_from k new (some n) (some a) h =
      insert_at k new (walk (λ m. less m n.message) k h (some a)) h

  pub insertnode : ℕ → ℕ → Heap M → Run M
  unfolding insert_from
  insertnode k new h = insert_from k new (h.nodes new) h.head h

  free : ℕ → Heap M → Heap M
  free a h = record h { nodes = update h.nodes a none }

  -- `prev` is the node before `ptr`; the last argument is the node itself.
  unlink_node : ℕ → ℕ → Heap M → Option (Node M) → Run M
  unfolding set_next and_then free
  unlink_node prev ptr h none = fault
  unlink_node prev ptr h (some n) =
      and_then (set_next prev n.next h)
        (λ h. ok (free ptr (record h { end = if same h.end (some ptr) then some prev else h.end })))

  unlink : ℕ → Walk → Heap M → Run M
  unfolding unlink_node
  unlink ptr fault h = fault
  unlink ptr out_of_fuel h = out_of_fuel
  unlink ptr (found none) h = fault
  unlink ptr (found (some prev)) h = unlink_node prev ptr h (h.nodes ptr)

  delete_first : ℕ → Heap M → Option (Node M) → Run M
  unfolding free
  delete_first ptr h none = fault
  delete_first ptr h (some n) =
      ok (
        free ptr
          (record h { head = n.next; end = if same h.end (some ptr) then n.next else h.end }))

  pub deletenode : ℕ → ℕ → Heap M → Run M
  unfolding unlink delete_first
  deletenode k ptr h =
      if same (some ptr) h.head
      then delete_first ptr h (h.nodes ptr)
      else unlink ptr (prev_of k h (some ptr) h.head) h

  -- The loop of `deletelist`.
  free_loop : ℕ → Option ℕ → Heap M → Run M
  unfolding free
  free_loop zero ptr h = out_of_fuel
  free_loop (suc k) none h = ok h
  free_loop (suc k) (some a) h = elim (h.nodes a) [
    | none ↦ fault
    | some n ↦ free_loop k n.next (free a h)
  ]

  delete_from : ℕ → Option ℕ → Walk → Heap M → Run M
  unfolding free_loop
  delete_from k ptr fault h = fault
  delete_from k ptr out_of_fuel h = out_of_fuel
  delete_from k ptr (found temp) h = free_loop k ptr (record h { end = temp })

  pub deletelist : ℕ → Option ℕ → Heap M → Run M
  unfolding delete_from
  deletelist k ptr h =
      if same h.head none
      then ok h
      else if same ptr h.head
      then free_loop k ptr (record h { head = none; end = none })
      else delete_from k ptr (prev_of k h ptr h.head) h
