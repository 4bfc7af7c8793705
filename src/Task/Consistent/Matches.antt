-- ===== src/Task/Consistent/Matches.antt =====
-- Which waiters os_task_waiters_wake_match wakes, and what it delivers to them (kernel/os_task.c).
use ahura_rtos.Shared.{
  ℕ, ◌≤◌, ◌≡◌, ◌≢◌, refl, ap, ap₂, ◌∙◌, Bool, true, none, some, List, [], ◌∷◌, arith, if◌then◌else◌,
  ◌&&◌, ltb, update, count, Bool-cases, inl, inr,
}
use ahura_rtos.Task.State.{ready, Config, Cpu, Sched, in_table}
use ahura_rtos.Task.Port.{preempt_if_running}
use ahura_rtos.Task.Queues.{make_ready}
use ahura_rtos.Task.Wait.{Match, deliver, wake_match_walk, wake_match}
use ahura_rtos.Task.Keeps.{unlink-Keeps}
use ahura_rtos.Task.Consistent.Defs.{IsConsistent, nobody}
use ahura_rtos.Task.Consistent.Unlink.{unlink-Unlinked}
use ahura_rtos.Task.Consistent.Wake.{in_table_of_count, count-head}
use ahura_rtos.Task.Consistent.Wakes.{deliver-IsConsistent}

module _ (k : Config) (c : Cpu) where
  module _ (list r result : ℕ) (s : Sched) where
    deliver-data0 : (deliver k c list r result s).wait_data0 ≡ s.wait_data0
    unfolding deliver make_ready preempt_if_running
    deliver-data0 = ap (λ u. u.wait_data0) (unlink-Keeps k c r s)

    deliver-data1 : (deliver k c list r result s).wait_data1 ≡ s.wait_data1
    unfolding deliver make_ready preempt_if_running
    deliver-data1 = ap (λ u. u.wait_data1) (unlink-Keeps k c r s)

    deliver-result : (deliver k c list r result s).wait_result ≡ update s.wait_result r result
    unfolding deliver make_ready preempt_if_running
    deliver-result = ap (λ u. update u.wait_result r result) (unlink-Keeps k c r s)

    deliver-signaled : (deliver k c list r result s).wait_signaled ≡ update s.wait_signaled r true
    unfolding deliver make_ready preempt_if_running
    deliver-signaled = ap (λ u. update u.wait_signaled r true) (unlink-Keeps k c r s)

    deliver-woken_from :
        (deliver k c list r result s).woken_from ≡ update s.woken_from r (some list)
    unfolding deliver make_ready preempt_if_running
    deliver-woken_from = ap (λ u. update u.woken_from r (some list)) (unlink-Keeps k c r s)

    module _ (h : IsConsistent k nobody s) where
      deliver-state : (deliver k c list r result s).state ≡ update s.state r ready
      unfolding deliver make_ready preempt_if_running
      deliver-state =
          ap (λ f. update f r ready) (unlink-Unlinked k c nobody r s refl (λ q e. cc) h).state

      deliver-waits : (deliver k c list r result s).wait_list ≡ update s.wait_list r none
      unfolding deliver make_ready preempt_if_running
      deliver-waits = (unlink-Unlinked k c nobody r s refl (λ q e. cc) h).waits

-- The tasks that `woken` picks are ready, wait no longer, are signaled by the list, and have their
-- results; all others are as they were.
pub record Delivered (list : ℕ) (woken : ℕ → Bool) (result : ℕ → ℕ) (s t : Sched) : Type 0 where
  pub state : (q : ℕ) → t.state q ≡ (if woken q then ready else s.state q)
  pub waits : (q : ℕ) → t.wait_list q ≡ (if woken q then none else s.wait_list q)
  pub signaled : (q : ℕ) → t.wait_signaled q ≡ (if woken q then true else s.wait_signaled q)
  pub from : (q : ℕ) → t.woken_from q ≡ (if woken q then some list else s.woken_from q)
  pub results : (q : ℕ) → t.wait_result q ≡ (if woken q then result q else s.wait_result q)
  pub data0 : t.wait_data0 ≡ s.wait_data0
  pub data1 : t.wait_data1 ≡ s.wait_data1

module _ {X : Type 0} (match : ℕ → ℕ → X → Match X) where
  -- The callback's context behind all waiters.
  abbrev pub contexts : (ℕ → ℕ) → (ℕ → ℕ) → List ℕ → X → X
  contexts data0 data1 [] x = x
  contexts data0 data1 (r ∷ rs) x = contexts data0 data1 rs (match (data0 r) (data1 r) x).context

-- A callback that answers by the two words alone, as long as its context is as it should be.
module _ (k : Config) (c : Cpu) {X : Type 0} (match : ℕ → ℕ → X → Match X) (list : ℕ)
    (fits : ℕ → ℕ → Bool) (result : ℕ → ℕ → ℕ) (Good : X → Type 0)
    (answers : (a b : ℕ) (x : X) → Good x → (match a b x).satisfied ≡ fits a b)
    (delivers : (a b : ℕ) (x : X) → Good x → fits a b ≡ true → (match a b x).result ≡ result a b)
    (goes_on : (a b : ℕ) (x : X) → Good x → Good (match a b x).context) where
  abbrev pub picks : List ℕ → Sched → ℕ → Bool
  picks rs s q = ltb 0 (count q rs) && fits (s.wait_data0 q) (s.wait_data1 q)

  abbrev pub results_of : Sched → ℕ → ℕ
  results_of s q = result (s.wait_data0 q) (s.wait_data1 q)

  one :
      (r : ℕ) (x : X) (s : Sched)
      → IsConsistent k nobody s
      → Good x
      → Delivered list (picks (r ∷ []) s) (results_of s) s (
          if (match (s.wait_data0 r) (s.wait_data1 r) x).satisfied
          then deliver k c list r (match (s.wait_data0 r) (s.wait_data1 r) x).result s
          else s)
  one r x s h good =
      let a = s.wait_data0 r in
      let b = s.wait_data1 r in
      let m = match a b x in
      let t = deliver k c list r m.result s in
      elim (Bool-cases (fits a b)) [
        | inl fit ↦
            let out = delivers a b x good fit in
            rw (answers a b x good ∙ fit) record {
              state =
                  λ q. ground (arith, ap (λ f. f q) (deliver-state k c list r m.result s h), fit);
              waits =
                  λ q. ground (arith, ap (λ f. f q) (deliver-waits k c list r m.result s h), fit);
              signaled =
                  λ q. ground (arith, ap (λ f. f q) (deliver-signaled k c list r m.result s), fit);
              from = λ q.
                  ground (arith, ap (λ f. f q) (deliver-woken_from k c list r m.result s), fit);
              results = λ q.
                  ground (arith, ap (λ f. f q) (deliver-result k c list r m.result s), fit, out);
              data0 = deliver-data0 k c list r m.result s;
              data1 = deliver-data1 k c list r m.result s;
            }
        | inr unfit ↦ rw (answers a b x good ∙ unfit) record {
          state = λ q. ground (arith, unfit);
          waits = λ q. ground (arith, unfit);
          signaled = λ q. ground (arith, unfit);
          from = λ q. ground (arith, unfit);
          results = λ q. ground (arith, unfit);
          data0 = refl;
          data1 = refl;
        }
      ]

  walk-Delivered :
      (rs : List ℕ) (x : X) (s : Sched)
      → ((q : ℕ) → count q rs ≤ 1)
      → ((q : ℕ) → count q rs ≢ 0 → in_table k q ≡ true)
      → IsConsistent k nobody s
      → Good x
      → Delivered list (picks rs s) (results_of s) s (wake_match_walk k c match list rs x s).2
  unfolding wake_match_walk
  walk-Delivered [] x s once inside h good = record {
    state = λ q. refl;
    waits = λ q. refl;
    signaled = λ q. refl;
    from = λ q. refl;
    results = λ q. refl;
    data0 = refl;
    data1 = refl;
  }
  walk-Delivered (r ∷ rs) x s once inside h good =
      let m = match (s.wait_data0 r) (s.wait_data1 r) x in
      let s' = if m.satisfied then deliver k c list r m.result s else s in
      let first = one r x s h good in
      let h' : IsConsistent k nobody s' = elim (Bool-cases m.satisfied) [
        | inl woken ↦
            rw woken (deliver-IsConsistent k c list r m.result s (inside r (count-head r rs)) h)
        | inr passed ↦ rw passed h
      ] in
      let rest =
        walk-Delivered rs m.context s' (λ q. ground (arith, once q))
          (λ q stands. inside q (ground (arith, stands))) h'
          (goes_on (s.wait_data0 r) (s.wait_data1 r) x good) in
      let fits_same : (q : ℕ)
          → fits (s'.wait_data0 q) (s'.wait_data1 q) ≡ fits (s.wait_data0 q) (s.wait_data1 q) =
        λ q. ap₂ (λ f g. fits (f q) (g q)) first.data0 first.data1 in
      let result_same : (q : ℕ) → results_of s' q ≡ results_of s q =
        λ q. ap₂ (λ f g. result (f q) (g q)) first.data0 first.data1 in
      let gone : count r rs ≡ 0 = ground (arith, once r) in
      record {
        state = λ q. ground (arith, rest.state q, fits_same q, first.state q, gone);
        waits = λ q. ground (arith, rest.waits q, fits_same q, first.waits q, gone);
        signaled = λ q. ground (arith, rest.signaled q, fits_same q, first.signaled q, gone);
        from = λ q. ground (arith, rest.from q, fits_same q, first.from q, gone);
        results =
            λ q. ground (arith, rest.results q, fits_same q, result_same q, first.results q, gone);
        data0 = rest.data0 ∙ first.data0;
        data1 = rest.data1 ∙ first.data1;
      }

  walk-contexts :
      (rs : List ℕ) (x : X) (s : Sched)
      → (wake_match_walk k c match list rs x s).1 ≡ contexts match s.wait_data0 s.wait_data1 rs x
  unfolding wake_match_walk
  walk-contexts [] x s = refl
  walk-contexts (r ∷ rs) x s =
      let m = match (s.wait_data0 r) (s.wait_data1 r) x in
      let rest =
        walk-contexts rs m.context (if m.satisfied then deliver k c list r m.result s else s) in
      elim (Bool-cases m.satisfied) [
        | inl woken ↦
            rest
            ∙ rw woken (
                ap₂ (λ d0 d1. contexts match d0 d1 rs m.context)
                  (deliver-data0 k c list r m.result s) (deliver-data1 k c list r m.result s))
        | inr passed ↦ rest ∙ rw passed refl
      ]

  -- Of the waiters of a list, those whose words fit are woken with their results, and the callback
  -- has seen the words of all.
  pub wake_match-Delivered :
      (x : X) (s : Sched)
      → IsConsistent k nobody s
      → Good x
      → (let (_, x', t) = wake_match k c match list x s in
          Delivered list (picks (s.waiters list) s) (results_of s) s t
          × (x' ≡ contexts match s.wait_data0 s.wait_data1 (s.waiters list) x))
  unfolding wake_match
  wake_match-Delivered x s h good = (
    walk-Delivered (s.waiters list) x s (λ q. ground (arith, h.waiting.listed q list))
        (λ q. in_table_of_count k nobody s q list h) h good,
    walk-contexts (s.waiters list) x s,
  )
