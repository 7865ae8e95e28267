-- ===== src/Automaton/Wolfram.antt =====
-- cellular_automata.c against the numbering of the elementary automata: the bit `k` of the number of
-- a rule is what becomes of a cell whose neighbourhood, read from the left, is `k`.
use tcp_and_parallel.Prelude.{
  ℕ, zero, suc, ◌+◌, ◌*◌, ◌/◌, ◌%◌, ◌^◌, ◌<◌, ◌≡◌, refl, sym, subst, ap, ◌∙◌, Bool, true, Option,
  none, some, List, ◌==◌, if◌then◌else◌, below, of_below, eq_of_==, arith, ◌||◌, false, ◌≢◌, ◌≤◌,
}
use tcp_and_parallel.Automaton.{neighborhood, rule_set, cellular_rule, rule_loop, next_byte}

abbrev pub bit : ℕ → ℕ → ℕ
bit n k = n / 2 ^ k % 2

-- The cell `i` with its neighbours in the ring, the higher one first.
abbrev pub ring_neighborhood : ℕ → ℕ → ℕ
ring_neighborhood x i = 4 * bit x ((i + 1) % 8) + 2 * bit x i + bit x ((i + 7) % 8)

neighborhood_table :
    below 256 (λ x. below 8 (λ i. neighborhood x i == ring_neighborhood x i)) ≡ true
unfolding neighborhood
neighborhood_table = refl

pub neighborhood_lem : (x i : ℕ) → x < 256 → i < 8 → neighborhood x i ≡ ring_neighborhood x i
neighborhood_lem x i h lt =
    let row =
      of_below 256 (λ x. below 8 (λ i. neighborhood x i == ring_neighborhood x i)) x
        neighborhood_table h in
    eq_of_== (neighborhood x i) (ring_neighborhood x i)
      (of_below 8 (λ i. neighborhood x i == ring_neighborhood x i) i row lt)

-- The number of the automaton that the array for `rule` is the table of.
abbrev pub number : ℕ → ℕ
number rule =
    if rule == 153
    then 141
    else if rule == 15
    then 240
    else if rule == 170
    then 85
    else if rule == 51
    then 204
    else if rule == 204
    then 99
    else if rule == 150
    then 105
    else rule

abbrev gives : Option ℕ → ℕ → Bool
gives none b = false
gives (some c) b = c == b

abbrev absent : Option (List ℕ) → Bool
absent none = true
absent (some rules) = false

rule_table :
    below 256 (λ rule.
      absent (rule_set rule) || below 8 (λ k. gives (cellular_rule k rule) (bit (number rule) k)))
    ≡ true
unfolding cellular_rule rule_set
rule_table = refl

given : (o : Option ℕ) (b : ℕ) → gives o b ≡ true → o ≡ some b
given none b h = cc
given (some c) b h = ap (λ (x : ℕ). some x) (eq_of_== c b h)

present : (o : Option (List ℕ)) (b : Bool) → o ≢ none → (absent o || b) ≡ true → b ≡ true
present none b h e = elim (h refl) [ ]
present (some rules) b h e = e

-- For a rule of the switch, and a neighbourhood below 8, the array is the table of the automaton with
-- the number above: that of the rule itself for 195 and 90, and that of another for each of the others.
pub cellular_rule_lem :
    (rule k : ℕ)
    → rule < 256
    → rule_set rule ≢ none
    → k < 8
    → cellular_rule k rule ≡ some (bit (number rule) k)
cellular_rule_lem rule k lt set small =
    let row =
      of_below 256
        (λ rule.
          absent (rule_set rule)
          || below 8 (λ k. gives (cellular_rule k rule) (bit (number rule) k)))
        rule rule_table lt in
    given (cellular_rule k rule) (bit (number rule) k) (
      of_below 8 (λ k. gives (cellular_rule k rule) (bit (number rule) k)) k
        (present (rule_set rule) _ set row) small)

-- The byte whose bits are what the automaton `w` makes of the cells of `x`.
abbrev pub cells_from : (w x k i : ℕ) → ℕ
cells_from w x zero i = 0
cells_from w x (suc k) i = bit w (ring_neighborhood x i) * 2 ^ i + cells_from w x k (i + 1)

abbrev pub next_cells : ℕ → ℕ → ℕ
next_cells w x = cells_from w x 8 0

next_cells-lt : (w x : ℕ) → next_cells w x < 256
next_cells-lt w x = omega arith

rule_loop_lem :
    (rule x k i d : ℕ)
    → rule < 256
    → rule_set rule ≢ none
    → x < 256
    → i + k ≤ 8
    → d + cells_from (number rule) x k i < 256
    → rule_loop rule x k i d ≡ some (d + cells_from (number rule) x k i)
unfolding rule_loop
rule_loop_lem rule x zero i d lt set h fits room = ap (λ (n : ℕ). some n) (omega arith)
rule_loop_lem rule x (suc k) i d lt set h fits room =
    let c = bit (number rule) (ring_neighborhood x i) in
    let fact : cellular_rule (neighborhood x i) rule ≡ some c =
      ap (λ (n : ℕ). cellular_rule n rule) (neighborhood_lem x i h (omega arith))
      ∙ cellular_rule_lem rule (ring_neighborhood x i) lt set (omega arith) in
    let small : (d + c * 2 ^ i) % 256 ≡ d + c * 2 ^ i = omega arith in
    rw (fact, small)
      (rule_loop_lem rule x k (i + 1) (d + c * 2 ^ i) lt set h (omega arith) (omega arith)
        ∙ ap (λ (n : ℕ). some n) (omega arith))

zero-add : (n : ℕ) → 0 + n ≡ n
zero-add n = omega arith

-- From a byte, the two loops of main with a rule that cellular_rule knows read no array through a
-- pointer that is not set, and no sum wraps around: the result is the byte, below 256, that an
-- elementary cellular automaton makes of it in a ring of eight cells. It is the automaton of that number
-- for the rules 195 and 90, and another one for the other six: 141 for the rule 153, 240 for 15, 85 for
-- 170, 204 for 51, 99 for 204, and 105 for 150.
pub next_byte_lem :
    (rule x : ℕ)
    → rule < 256
    → rule_set rule ≢ none
    → x < 256
    → (next_byte rule x ≡ some (next_cells (number rule) x)) × (next_cells (number rule) x < 256)
unfolding next_byte
next_byte_lem rule x lt set h =
    let room : next_cells (number rule) x < 256 = next_cells-lt (number rule) x in
    let cells = next_cells (number rule) x in
    (
      rule_loop_lem rule x 8 0 0 lt set h (omega arith)
            (subst (λ (n : ℕ). n < 256) (sym (zero-add cells)) room)
          ∙ ap (λ (n : ℕ). some n) (zero-add cells),
      room,
    )
