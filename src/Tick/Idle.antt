-- ===== src/Tick/Idle.antt =====
-- The ticks that the tickless planner may plan for never pass a deadline (kernel/os_tick.c).
use ahura_rtos.Shared.{
  ℕ, ◌≤◌, ◌≡◌, ◌⊎◌, inl, inr, refl, some, List, [], ◌∷◌, arith, if◌then◌else◌, ltb, ◌==◌, u32_max,
  false, is_empty, Bool-cases, Option-cases,
}
use ahura_rtos.Task.State.{Config, Cpu}
use ahura_rtos.Task.Dispatch.{next_delay_ticks_get}
use ahura_rtos.Delta.Due.{due}
use ahura_rtos.Timer.Calls.{next_expiry_ticks_get}
use ahura_rtos.Timer.Registry.{due_in}
use ahura_rtos.Blocking.{World}
use ahura_rtos.Tick.Defs.{Clock, expected_idle_ticks_get}

-- When the first entry of a delta list falls due.
abbrev nearest : (ℕ → ℕ) → List ℕ → ℕ
nearest ticks es = elim es [ [] ↦ u32_max | r ∷ _ ↦ ticks r ]

-- No entry falls due before it, and it falls due then.
nearest-le :
    (ticks : ℕ → ℕ) (es : List ℕ) (q m : ℕ) → due ticks es q ≡ some m → nearest ticks es ≤ m
nearest-le ticks [] q m h = ground (arith, h)
nearest-le ticks (e ∷ es) q m h = elim (Bool-cases (e == q)) [
  | inl here ↦ ground (arith, h, here)
  | inr behind ↦ elim (Option-cases (due ticks es q)) [
    | inl gone ↦ ground (arith, h, behind, gone)
    | inr (n, later) ↦ ground (arith, h, behind, later)
  ]
]

nearest-due :
    (ticks : ℕ → ℕ) (es : List ℕ)
    → (nearest ticks es ≡ u32_max) ⊎ ((q : ℕ) × (due ticks es q ≡ some (nearest ticks es)))
nearest-due ticks [] = inl refl
nearest-due ticks (e ∷ es) = inr (e, ground arith)

-- The smaller of two ticks is one of them.
smaller-reached :
    (timer sleeper : ℕ) (P Q : ℕ → Type 0)
    → (timer ≡ u32_max) ⊎ P timer
    → (sleeper ≡ u32_max) ⊎ Q sleeper
    → (let idle =
          if ltb sleeper (if ltb timer u32_max then timer else u32_max)
          then sleeper
          else (if ltb timer u32_max then timer else u32_max) in
        (idle ≡ u32_max) ⊎ (Q idle ⊎ P idle))
smaller-reached timer sleeper P Q p q =
    elim (Bool-cases (ltb sleeper (if ltb timer u32_max then timer else u32_max))) [
      | inl first ↦ rw first (elim q [ inl e ↦ inl e | inr e ↦ inr (inl e) ])
      | inr second ↦ rw second (elim (Bool-cases (ltb timer u32_max)) [
        | inl early ↦ rw early (elim p [ inl e ↦ inl e | inr e ↦ inr (inr e) ])
        | inr never ↦ rw never (inl refl)
      ])
    ]

-- What a plan of `idle` ticks may not pass, and what it reaches.
pub record Plans (w : World Clock) (idle : ℕ) : Type 0 where
  pub sleepers : (q m : ℕ) → due w.sched.delay_ticks w.sched.delay_list q ≡ some m → idle ≤ m
  pub timers : (q m : ℕ) → due_in w.object.timers q ≡ some m → idle ≤ m
  pub waiting : is_empty w.object.timers.ready_list ≡ false → idle ≡ 0
  pub reached :
      (idle ≡ u32_max)
      ⊎ ((is_empty w.object.timers.ready_list ≡ false)
          ⊎ (((q : ℕ) × (due w.sched.delay_ticks w.sched.delay_list q ≡ some idle))
              ⊎ ((q : ℕ) × (due_in w.object.timers q ≡ some idle))))

-- os_tickless_expected_idle_ticks_get never passes the tick in which a sleeper or a timer falls
-- due, plans nothing while an expiry waits for its callback, and otherwise reaches the tick in
-- which some sleeper or timer falls due, or is UINT32_MAX.
pub expected_idle_ticks_get-Plans :
    (k : Config) (c : Cpu) (w : World Clock) → Plans w (expected_idle_ticks_get k c w)
unfolding expected_idle_ticks_get next_expiry_ticks_get next_delay_ticks_get
expected_idle_ticks_get-Plans k c w =
    let t = w.object.timers in
    let s = w.sched in
    let near_s = nearest-le s.delay_ticks s.delay_list in
    let near_t = nearest-le t.remaining_ticks t.running_list in
    elim (Bool-cases (is_empty t.ready_list)) [
      | inl idle ↦ rw idle record {
        sleepers = λ q m h. ground (arith, near_s q m h);
        timers = λ q m h. ground (arith, near_t q m h);
        waiting = λ e. ground (arith, e);
        reached =
            elim (smaller-reached (nearest t.remaining_ticks t.running_list)
              (nearest s.delay_ticks s.delay_list) (λ n. (q : ℕ) × (due_in t q ≡ some n))
              (λ n. (q : ℕ) × (due s.delay_ticks s.delay_list q ≡ some n))
              (nearest-due t.remaining_ticks t.running_list)
              (nearest-due s.delay_ticks s.delay_list)) [ inl e ↦ inl e | inr e ↦ inr (inr e) ];
      }
      | inr due_now ↦ rw due_now record {
        sleepers = λ q m h. ground (arith, near_s q m h);
        timers = λ q m h. ground (arith, near_t q m h);
        waiting = λ e. ground arith;
        reached = inr (inl due_now);
      }
    ]
