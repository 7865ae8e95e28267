-- ===== src/Tests/Automaton.antt =====
-- Runs of cellular_automata.c.
use tcp_and_parallel.Prelude.{◌<◌, ◌≡◌, ◌≢◌, some, none, arith}
use tcp_and_parallel.Automaton.{rule_set, cellular_rule, next_byte}
use tcp_and_parallel.Automaton.Wolfram.{cellular_rule_lem, next_byte_lem, next_cells}

rule_153 : rule_set 153 ≢ none
unfolding rule_set
rule_153 e = cc

-- The rule 153 keeps a cell with two full neighbours to the right off; the code turns it on.
turns_on : cellular_rule 3 153 ≡ some 1
turns_on = cellular_rule_lem 153 3 (omega arith) rule_153 (omega arith)

next_byte_lem_example :
    (next_byte 153 0x01 ≡ some (next_cells 141 0x01)) × (next_cells 141 0x01 < 256)
next_byte_lem_example = next_byte_lem 153 0x01 (omega arith) rule_153 (omega arith)
