-- ===== src/Matrix/Chain.antt =====
-- sefdm/algorythms/test.list.161.c: the columns as pointers, and `table_append` on them.
pub mod Links
pub mod Appended
use tcp_and_parallel.Prelude.{ℕ, Option, none, some, ◌==◌, if◌then◌else◌, update}
use tcp_and_parallel.Matrix.Table.{Node}

pub record Cell (D : Type 0) : Type 0 where
  pub node : Node D
  pub next : Option ℕ

-- The nodes by their address, and the heads and tails of the columns.
pub record Linked (D : Type 0) : Type 0 where
  pub cells : ℕ → Cell D
  pub head : ℕ → Option ℕ
  pub tail : ℕ → Option ℕ

pub first_or : Option ℕ → ℕ → Option ℕ
first_or none new = some new
first_or (some p) new = some p

module _ {D : Type 0} where
  -- `mytable->tail[...]->next = mynode`, where there is a tail.
  pub link_after : Option ℕ → ℕ → (ℕ → Cell D) → ℕ → Cell D
  link_after none new cells = cells
  link_after (some last) new cells =
      update cells last (record { node = (cells last).node; next = some new })

  pub linked_append : Linked D → ℕ → Linked D
  unfolding link_after first_or
  linked_append t new =
      let node = (t.cells new).node in
      let col = node.col in
      let ended = update t.cells new (record { node = node; next = none }) in
      record {
        cells = link_after (t.tail col) new ended;
        tail = update t.tail col (some new);
        head = update t.head col (first_or (t.head col) new);
      }
