-- ===== src/Tests/LinkedList.antt =====
-- Runs of the list of pthreads/linkedlist.c, with numbers for messages.
use tcp_and_parallel.Prelude.{ℕ, none, some, [], ◌∷◌, ◌==◌, ltb, ◌≡◌, refl, arith, if◌then◌else◌}
use tcp_and_parallel.LinkedList.{Heap, found, searchname, insertnode, deletenode, deletelist, add}
use tcp_and_parallel.LinkedList.Add.{EndsWith, add-EndsWith}
use tcp_and_parallel.LinkedList.DeleteList.{Cut, deletelist-Cut}
use tcp_and_parallel.LinkedList.Delete.{deletenode-Holds}
use tcp_and_parallel.LinkedList.Cells.{Cell, Seg, Once}
use tcp_and_parallel.LinkedList.Insert.{Holds}
use tcp_and_parallel.LinkedList.Search.{searchname-drop_while}
use tcp_and_parallel.LinkedList.Place.{insertnode-Holds}

abbrev cell : ℕ → ℕ → Cell ℕ
cell a m = record { addr = a; message = m; id = 0 }

abbrev heap : Heap ℕ
heap = record {
  nodes = λ a.
      if a == 1
      then some (record { message = 10; id = 0; next = some 2 })
      else if a == 2
      then some (record { message = 30; id = 0; next = none })
      else if a == 3
      then some (record { message = 20; id = 0; next = none })
      else none;
  head = some 1;
  end = some 2;
}

heap-Seg : Seg heap.nodes heap.head none (cell 1 10 ∷ cell 2 30 ∷ [])
heap-Seg = (refl, (some 2, refl, (refl, (none, refl, refl))))

searchname-drop_while_example : searchname ◌==◌ ltb 3 heap heap.head 30 ≡ found (some 2)
searchname-drop_while_example =
    searchname-drop_while ◌==◌ ltb 3 heap (cell 1 10) (cell 2 30 ∷ []) 30 heap-Seg (ground arith)

insertnode-Holds_example :
    Holds ◌==◌ ltb (cell 1 10 ∷ cell 3 20 ∷ cell 2 30 ∷ []) (insertnode ◌==◌ ltb 3 3 heap)
insertnode-Holds_example =
    insertnode-Holds ◌==◌ ltb 3 heap (cell 3 20) none (cell 1 10 ∷ cell 2 30 ∷ []) refl
      (((λ e. ground arith), tt), (tt, tt)) ((λ e. ground arith), ((λ e. ground arith), tt))
      heap-Seg refl (ground arith)

heap-Once : Once (cell 1 10 ∷ cell 2 30 ∷ [])
heap-Once = (((λ e. ground arith), tt), (tt, tt))

deletenode-Holds_example : Holds ◌==◌ ltb (cell 1 10 ∷ []) (deletenode ◌==◌ ltb 1 2 heap)
deletenode-Holds_example =
    deletenode-Holds ◌==◌ ltb 1 heap (cell 1 10 ∷ []) (cell 2 30) [] heap-Once heap-Seg refl
      (ground arith)

deletelist-Cut_example :
    Cut ◌==◌ ltb (cell 1 10 ∷ []) (cell 2 30 ∷ []) (some 2) (deletelist ◌==◌ ltb 3 (some 2) heap)
deletelist-Cut_example =
    deletelist-Cut ◌==◌ ltb 2 heap (cell 1 10 ∷ []) (cell 2 30) [] heap-Once heap-Seg (omega arith)

added_behind : EndsWith ◌==◌ ltb (cell 1 10 ∷ cell 2 30 ∷ []) (cell 3 20) (add ◌==◌ ltb 3 heap)
added_behind =
    add-EndsWith ◌==◌ ltb heap (cell 1 10 ∷ []) (cell 2 30) (cell 3 20) none refl heap-Once
      ((λ e. ground arith), ((λ e. ground arith), tt)) heap-Seg refl
