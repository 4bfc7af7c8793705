-- ===== src/Event/Waits.antt =====
-- os_event_wait_bits: what a pass through its critical section answers, and that it returns.
use ahura_rtos.Shared.{
  ℕ, ◌^◌, ◌<◌, ◌≡◌, refl, Bool, true, false, ◌&&◌, List, ◌∷◌, ◌++◌, arith, if◌then◌else◌, ◌==◌,
  u32_mod, Bool-cases, inl, inr,
}
use Prim.Native.Nat.{bit_and}
use ahura_rtos.Status.{wait_forever, ok, busy, timeout, invalid_arg}
use ahura_rtos.Task.State.{Config, Cpu}
use ahura_rtos.Task.Wait.{wait_signaled, wait_result_get, wait_data_set}
use ahura_rtos.Blocking.{timeout_to_ticks, nonblocking, World, done, wait, Pause}
use ahura_rtos.Blocking.Ends.{
  Ends, Arms, Resumes, RunsOut, Outlasts, Returns, wait_begin-Timed, wait_loop-Returns,
}
use ahura_rtos.Blocking.Timeouts.{
  timeout_to_ticks_bounds, wait_remaining-elapsed, wait_remaining-lt,
}
use ahura_rtos.Shared.Bits.{digit}
use ahura_rtos.Event.Defs.{Waiter, wait_flags, is_match, wait_pass, wait_resume, wait_bits}
use ahura_rtos.Event.Conditions.{all_set-bit_and, any_set-bit_and}
use ahura_rtos.Event.Wakes.{wanted, digit-cleared}

-- What the code tests is what the waiter's words say to os_event_set_bits.
is_match-wanted :
    (wait_all clear_on_exit : Bool) (flags bits : ℕ)
    → bits < 2 ^ 32
    → is_match wait_all (bit_and flags bits) bits
      ≡ wanted flags bits (wait_flags wait_all clear_on_exit)
is_match-wanted true true flags bits word = all_set-bit_and 32 flags bits word
is_match-wanted true false flags bits word = all_set-bit_and 32 flags bits word
is_match-wanted false true flags bits word = any_set-bit_and 32 flags bits word
is_match-wanted false false flags bits word = any_set-bit_and 32 flags bits word

module _ (k : Config) (c : Cpu) (bits : ℕ) (wait_all clear_on_exit : Bool) (timeout_ms : ℕ) where
  -- For bits of a 32-bit word: a critical section of os_event_wait_bits ends with OS_ERR_NONE
  -- exactly if the flags are what os_event_set_bits would wake the task for, and otherwise as the
  -- timeout says; it tells the bits that matched, and clears the awaited bits if it was asked to
  -- and they are there, and no other.
  pub wait_pass-wanted :
      (remaining : ℕ) (w : World Waiter)
      → bits < 2 ^ 32
      → (let flags = w.object.event.flags in
          let met = wanted flags bits (wait_flags wait_all clear_on_exit) in
          let (verdict, w') = wait_pass k c bits wait_all clear_on_exit timeout_ms remaining w in
          (verdict ≡ (
            if met
            then done ok
            else (if nonblocking c timeout_ms w.sched
                then done busy
                else (if remaining == 0 then done timeout else wait))))
          × ((w'.object.matched_bits ≡ bit_and flags bits)
              × ((i : ℕ)
                  → i < 32
                  → digit w'.object.event.flags i
                    ≡ (if met && (clear_on_exit && digit bits i == 1) then 0 else digit flags i))))
  unfolding wait_pass
  wait_pass-wanted remaining w word =
      let flags = w.object.event.flags in
      let met = is_match-wanted wait_all clear_on_exit flags bits word in
      rw met (elim (Bool-cases (wanted flags bits (wait_flags wait_all clear_on_exit))) [
        | inl there ↦ elim (Bool-cases clear_on_exit) [
          | inl clear ↦
              rw (there, clear) (refl, (refl, λ i inside. digit-cleared i flags bits inside word))
          | inr keep ↦ rw (there, keep) (refl, (refl, λ i inside. refl))
        ]
        | inr missing ↦ elim (Bool-cases (nonblocking c timeout_ms w.sched)) [
          | inl now ↦ rw (missing, now) (refl, (refl, λ i inside. refl))
          | inr later ↦ elim (Bool-cases (remaining == 0)) [
            | inl late ↦ rw (missing, later, late) (refl, (refl, λ i inside. refl))
            | inr early ↦ rw (missing, later, early) (refl, (refl, λ i inside. refl))
          ]
        ]
      ])

  wait_pass-Ends : Ends (wait_pass k c bits wait_all clear_on_exit timeout_ms)
  unfolding wait_pass
  wait_pass-Ends w =
      elim (Bool-cases (is_match wait_all (bit_and w.object.event.flags bits) bits)) [
        | inl there ↦ (ok, rw there refl)
        | inr missing ↦ elim (Bool-cases (nonblocking c timeout_ms w.sched)) [
          | inl now ↦ (busy, rw (missing, now) refl)
          | inr later ↦ (timeout, rw (missing, later) refl)
        ]
      ]

  wait_pass-Arms : Arms k c (wait_pass k c bits wait_all clear_on_exit timeout_ms)
  unfolding wait_pass
  wait_pass-Arms n w finite waits =
      let e = w.object.event in
      let flags = wait_flags wait_all clear_on_exit in
      elim (Bool-cases (is_match wait_all (bit_and e.flags bits) bits)) [
        | inl there ↦ ground (arith, waits, there)
        | inr missing ↦ elim (Bool-cases (nonblocking c timeout_ms w.sched)) [
          | inl at_once ↦ ground (arith, waits, missing, at_once)
          | inr may_wait ↦ elim (Bool-cases (n == 0)) [
            | inl late ↦ ground (arith, waits, missing, may_wait, late)
            | inr early ↦
                rw (missing, may_wait, early)
                  (wait_begin-Timed k c e.waiters n (wait_data_set k c bits flags w.sched) finite)
          ]
        ]
      ]

  wait_resume-Resumes :
      (budget start : ℕ) → budget < wait_forever → Resumes (wait_resume k c budget start)
  unfolding wait_resume
  wait_resume-Resumes budget start finite w = elim (Bool-cases (wait_signaled k c w.sched)) [
    | inl signaled ↦ elim (Bool-cases (wait_result_get k c w.sched == 0)) [
      | inl nothing ↦ rw (signaled, nothing) (wait_remaining-lt budget start w.now finite)
      | inr something ↦ rw (signaled, something) (omega arith)
    ]
    | inr silent ↦ rw silent (omega arith)
  ]

  wait_resume-RunsOut :
      (budget start : ℕ)
      → budget < wait_forever
      → start < u32_mod
      → RunsOut budget start (wait_resume k c budget start)
  unfolding wait_resume
  wait_resume-RunsOut budget start finite word w elapsed late small now =
      elim (Bool-cases (wait_signaled k c w.sched)) [
        | inl signaled ↦ elim (Bool-cases (wait_result_get k c w.sched == 0)) [
          | inl nothing ↦
              rw
                (
                  signaled,
                  nothing,
                  now,
                  wait_remaining-elapsed budget start elapsed finite word small,
                )
                (omega (arith, late))
          | inr something ↦ rw (signaled, something) refl
        ]
        | inr silent ↦ rw silent refl
      ]

  -- os_event_wait_bits with a finite timeout returns, with or without a match, provided that one
  -- of its waits lasts until its ticks are used up, if it puts the task among the sleepers. Of a
  -- wait without a deadline nothing is assumed.
  pub wait_bits-Returns :
      (tick_hz : ℕ) (early : List (Pause Waiter)) (late : Pause Waiter) (rest : List (Pause Waiter))
      (w : World Waiter)
      → timeout_ms < wait_forever
      → w.now < u32_mod
      → Outlasts k c (timeout_to_ticks tick_hz timeout_ms) w.now late
      → Returns
          (wait_bits k c tick_hz bits wait_all clear_on_exit timeout_ms (early ++ late ∷ rest) w)
  unfolding wait_bits
  wait_bits-Returns tick_hz early late rest w finite word long =
      let budget = timeout_to_ticks tick_hz timeout_ms in
      let small = (timeout_to_ticks_bounds tick_hz timeout_ms finite).0 in
      elim (Bool-cases (bits == 0)) [
        | inl none_awaited ↦ rw none_awaited (invalid_arg, (w, refl))
        | inr some_awaited ↦ rw some_awaited (
            wait_loop-Returns (wait_pass k c bits wait_all clear_on_exit timeout_ms)
              (wait_resume k c budget w.now) wait_pass-Ends budget w.now
              (wait_resume-RunsOut budget w.now small word) k c wait_pass-Arms
              (wait_resume-Resumes budget w.now small) early late rest budget w small long)
      ]
