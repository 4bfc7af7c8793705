-- ===== src/Shared/Circle/Examples.antt =====
-- A copy round the end of a buffer of five bytes.
use ahura_rtos.Shared.{◌≡◌, [], ◌∷◌, arith}
use ahura_rtos.Shared.Circle.{write_round}
use ahura_rtos.Shared.Circle.Writes.{write_each, write_round-each}

write_round-each_example :
    write_round (λ i. 0) 2 3 (7 ∷ 8 ∷ 9 ∷ []) ≡ write_each 5 3 (λ i. 0) 0 (7 ∷ 8 ∷ 9 ∷ [])
write_round-each_example =
    write_round-each 5 3 (λ i. 0) (7 ∷ 8 ∷ 9 ∷ []) (omega arith) (omega arith)
