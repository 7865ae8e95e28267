-- ===== src/Alloc/Chain.antt =====
-- Linked lists of slots in the hole table, and which writes leave one alone.
use tcp_and_parallel.Prelude.{ℕ, ◌<◌, ◌≡◌, none, some, [], ◌∷◌, arith, update}
use tcp_and_parallel.Alloc.Table.{Ptr, Hole}
use tcp_and_parallel.Alloc.Cells.{Cells, times}

-- From `p` the links lead through the cells to NULL, and the slots hold their bases and lengths.
abbrev pub Chain : (ℕ → Hole) → Ptr → Cells → Type 0
Chain f p [] = p ≡ none
Chain f p (c ∷ cs) =
    (p ≡ some c.slot)
    × ((f c.slot).h_base ≡ c.base)
    × ((f c.slot).h_len ≡ c.len)
    × Chain f (f c.slot).h_next cs

pub Chain-frame :
    (f g : ℕ → Hole) (p : Ptr) (cs : Cells)
    → ((a : ℕ) → 0 < times a cs → g a ≡ f a)
    → Chain f p cs
    → Chain g p cs
Chain-frame f g p [] same h = h
Chain-frame f g p (c ∷ cs) same (at, base, len, rest) =
    let here : g c.slot ≡ f c.slot = same c.slot (ground arith) in
    let tail : Chain g (f c.slot).h_next cs =
      Chain-frame f g (f c.slot).h_next cs (λ a k. same a (ground arith)) rest in
    (at, ground (arith, here), ground (arith, here), rw here tail)

pub Chain-update :
    (f : ℕ → Hole) (p : Ptr) (cs : Cells) (i : ℕ) (v : Hole)
    → times i cs ≡ 0
    → Chain f p cs
    → Chain (update f i v) p cs
Chain-update f p cs i v out h = Chain-frame f (update f i v) p cs (λ a k. ground arith) h
