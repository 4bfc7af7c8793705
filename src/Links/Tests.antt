-- ===== src/Links/Tests.antt =====
-- The theorem about lists at a concrete input, and runs of the code.
use ahura_rtos.Shared.{ℕ, ◌≡◌, refl, some, none, false, List, [], ◌∷◌, arith, count, points_to}
use ahura_rtos.Links.Defs.{Links, init, push_back, is_empty}
use ahura_rtos.Links.Order.{after, before}
use ahura_rtos.Links.Keeps.{IsList}
use ahura_rtos.Links.Spares.{Same}
use ahura_rtos.Links.Refines.{run, put_before, run-act}

abbrev three : List ℕ
three = 4 ∷ 5 ∷ 6 ∷ []

abbrev chain : Links
chain = record { head = some 4; tail = some 6; next = after three; prev = before none three }

chain-IsList : IsList chain three
chain-IsList = record {
  once = λ q. ground arith;
  heads = refl;
  tails = refl;
  nexts = λ q inside. refl;
  prevs = λ q inside. refl;
}

run-act_example :
    ((run (put_before 5 9) chain).0 ≡ none)
    × (IsList (run (put_before 5 9) chain).1 (4 ∷ 9 ∷ 5 ∷ 6 ∷ [])
        × ((q : ℕ)
            → count q three ≡ 0
            → points_to (some 9) q ≡ false
            → Same chain (run (put_before 5 9) chain).1 q))
run-act_example = run-act (put_before 5 9) chain three chain-IsList (ground arith, refl)

-- A list that is made empty and gets a node.
pushed : is_empty (push_back 3 (init chain)) ≡ false
unfolding is_empty push_back init
pushed = refl
