-- ===== src/Automaton.antt =====
-- cellular_automata.c: one step of an elementary cellular automaton on the eight bits of a byte, that
-- stand in a ring. `unsigned char` keeps its wrap-around.
pub mod Wolfram
use tcp_and_parallel.Prelude.{
  ℕ, zero, suc, ◌+◌, ◌-◌, ◌*◌, ◌/◌, ◌%◌, ◌^◌, Bool, Option, none, some, List, [], ◌∷◌, ltb, ◌==◌,
  if◌then◌else◌, get_elem?, bit_and, bit_or, ◌>>=◌,
}

unfoldable pub neighborhood_bit_7 : ℕ → ℕ
neighborhood_bit_7 input =
    let shift_left_2 = bit_and input 1 * 2 ^ 2 % 256 in
    let shift_right_6 = bit_and input 192 / 2 ^ 6 in bit_or shift_left_2 shift_right_6

unfoldable pub neighborhood_bit_0 : ℕ → ℕ
neighborhood_bit_0 input =
    let shift_left_1 = bit_and input 3 * 2 % 256 in
    let shift_right_7 = bit_and input 128 / 2 ^ 7 in bit_or shift_left_1 shift_right_7

unfoldable pub neighborhood_bit_1_to_6 : ℕ → ℕ → ℕ
neighborhood_bit_1_to_6 input position =
    let mask = (2 ^ (position - 1) + 2 ^ (position + 1) + 2 ^ position) % 256 in
    bit_and input mask / 2 ^ (position - 1) % 256

-- The arrays `rule_set_195` and so on, by the switch on `rule`. For another number the pointer
-- `rule_set` is not set.
unfoldable pub rule_set : ℕ → Option (List ℕ)
rule_set rule =
    if rule == 195
    then some (1 ∷ 1 ∷ 0 ∷ 0 ∷ 0 ∷ 0 ∷ 1 ∷ 1 ∷ [])
    else if rule == 153
    then some (1 ∷ 0 ∷ 1 ∷ 1 ∷ 0 ∷ 0 ∷ 0 ∷ 1 ∷ [])
    else if rule == 90
    then some (0 ∷ 1 ∷ 0 ∷ 1 ∷ 1 ∷ 0 ∷ 1 ∷ 0 ∷ [])
    else if rule == 15
    then some (0 ∷ 0 ∷ 0 ∷ 0 ∷ 1 ∷ 1 ∷ 1 ∷ 1 ∷ [])
    else if rule == 170
    then some (1 ∷ 0 ∷ 1 ∷ 0 ∷ 1 ∷ 0 ∷ 1 ∷ 0 ∷ [])
    else if rule == 51
    then some (0 ∷ 0 ∷ 1 ∷ 1 ∷ 0 ∷ 0 ∷ 1 ∷ 1 ∷ [])
    else if rule == 204
    then some (1 ∷ 1 ∷ 0 ∷ 0 ∷ 0 ∷ 1 ∷ 1 ∷ 0 ∷ [])
    else if rule == 150
    then some (1 ∷ 0 ∷ 0 ∷ 1 ∷ 0 ∷ 1 ∷ 1 ∷ 0 ∷ [])
    else none

-- `none` where an array is read through the pointer that is not set.
unfoldable pub cellular_rule : ℕ → ℕ → Option ℕ
unfolding rule_set
cellular_rule input rule =
    if ltb 7 input then some 0 else (rule_set rule >>= λ rules. get_elem? rules input)

-- The first loop of `main`.
unfoldable pub neighborhood : ℕ → ℕ → ℕ
unfolding neighborhood_bit_0 neighborhood_bit_7 neighborhood_bit_1_to_6
neighborhood x i =
    if i == 0
    then neighborhood_bit_0 x
    else if i == 7
    then neighborhood_bit_7 x
    else neighborhood_bit_1_to_6 x i

-- The second loop of `main`, from the bit `i`, `k` bits of them.
rule_loop : (rule x k i d : ℕ) → Option ℕ
rule_loop rule x zero i d = some d
rule_loop rule x (suc k) i d = cellular_rule (neighborhood x i) rule >>= λ c.
    rule_loop rule x k (i + 1) ((d + c * 2 ^ i) % 256)

-- `main` from the byte `x` to the one that it prints; there `rule` is 195.
pub next_byte : ℕ → ℕ → Option ℕ
unfolding rule_loop
next_byte rule x = rule_loop rule x 8 0 0
