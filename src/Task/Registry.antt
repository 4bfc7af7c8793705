-- ===== src/Task/Registry.antt =====
-- Which tasks the ids name (kernel/os_task.c: os_task_find_by_id), as tasks come and go
-- (os_task_create, os_task_tcb_clear).
use ahura_rtos.Shared.{
  ℕ, zero, suc, ◌+◌, ◌≤◌, ◌<◌, ◌≡◌, ◌≢◌, refl, ◌∙◌, points_to, Bool, true, false, ◌&&◌, Option,
  none, some, arith, if◌then◌else◌, ◌==◌, update, Option-cases, Bool-cases, inl, inr,
}
use ahura_rtos.Status.{ok}
use ahura_rtos.Task.State.{TaskState, is_inactive, Config, Cpu, Sched}
use ahura_rtos.Task.Ids.{id_slot, id_make, find_by_id}
use ahura_rtos.Task.Port.{switch_request}
use ahura_rtos.Task.Inherit.{unlink}
use ahura_rtos.Task.Wait.{wake_compensate}
use ahura_rtos.Task.Life.{
  TaskConfig, Storage, StackRules, free_slot, claim_slot, tcb_clear, create_claim, create_any,
  create, handle_taken, delete, delete_target, delete_task,
}

pub id_slot-id_make : (slot generation : ℕ) → slot < 255 → id_slot (id_make slot generation) ≡ slot
unfolding id_slot id_make
id_slot-id_make slot generation small = ground arith

pub id_make-positive : (slot generation : ℕ) → slot < 255 → id_make slot generation ≢ 0
unfolding id_make
id_make-positive slot generation small = ground arith

-- A slot that the search finds is free and in the table.
pub record Found (state : ℕ → TaskState) (left index r : ℕ) : Type 0 where
  pub vacant : is_inactive (state r) ≡ true
  low : index ≤ r
  high : r < index + left

pub free_slot-Found :
    (state : ℕ → TaskState) (left index r : ℕ)
    → free_slot state left index ≡ some r
    → Found state left index r
unfolding free_slot
free_slot-Found state zero index r e = ground (arith, e)
free_slot-Found state (suc left) index r e = elim (Bool-cases (is_inactive (state index))) [
  | inl now ↦ record {
    vacant = ground (arith, e, now);
    low = ground (arith, e, now);
    high = ground (arith, e, now);
  }
  | inr taken ↦
      let later = free_slot-Found state left (index + 1) r (ground (arith, e, taken)) in
      record {
        vacant = later.vacant;
        low = ground (arith, later.low);
        high = ground (arith, later.high);
      }
]

module _ (k : Config) where
  find_by_id-claim_slot :
      (r : ℕ) (config : TaskConfig) (stack_ptr : ℕ) (system_task : Bool) (s : Sched) (id : ℕ)
      → r < k.table_size
      → k.table_size < 255
      → is_inactive (s.state r) ≡ true
      → find_by_id k id (claim_slot r config stack_ptr system_task s).1 ≡ (
          if id == (claim_slot r config stack_ptr system_task s).0
          then some r
          else find_by_id k id s)
  unfolding find_by_id claim_slot
  find_by_id-claim_slot r config stack_ptr system_task s id inside small vacant =
      ground
        (arith, id_slot-id_make r (s.next_generation r), id_make-positive r (s.next_generation r))

  find_by_id-tcb_clear :
      (r : ℕ) (s : Sched) (id : ℕ)
      → find_by_id k id (tcb_clear k r s) ≡ (if id_slot id == r then none else find_by_id k id s)
  unfolding find_by_id tcb_clear
  find_by_id-tcb_clear r s id = ground arith

module _ (k : Config) (c : Cpu) where
  id_slot-claim_slot :
      (r : ℕ) (config : TaskConfig) (stack_ptr : ℕ) (system_task : Bool) (s : Sched)
      → r < 255
      → id_slot (claim_slot r config stack_ptr system_task s).0 ≡ r
  unfolding claim_slot
  id_slot-claim_slot r config stack_ptr system_task s small =
      id_slot-id_make r (s.next_generation r) small

  create_claim-find_by_id :
      (handle : ℕ) (config : TaskConfig) (stack_ptr : ℕ) (system_task : Bool) (s : Sched) (id : ℕ)
      → k.table_size < 255
      → (create_claim k c handle config stack_ptr system_task s).0 ≡ ok
      → find_by_id k id (create_claim k c handle config stack_ptr system_task s).2 ≡ (
          if id == (create_claim k c handle config stack_ptr system_task s).1
          then some (id_slot (create_claim k c handle config stack_ptr system_task s).1)
          else find_by_id k id s)
  unfolding create_claim
  create_claim-find_by_id handle config stack_ptr system_task s id small =
      elim (Bool-cases (handle_taken k c handle s)) [
        | inl taken ↦ rw taken λ done. ground (arith, done)
        | inr fresh ↦ rw fresh (elim (Option-cases (free_slot s.state k.table_size 0)) [
          | inl none_left ↦ rw none_left λ done. ground (arith, done)
          | inr (r, found) ↦ rw found λ done.
              let h = free_slot-Found s.state k.table_size 0 r found in
              let small_slot : r < 255 = ground (arith, h.high) in
              rw (id_slot-claim_slot r config stack_ptr system_task s small_slot) (
                find_by_id-claim_slot k r config stack_ptr system_task s id (ground (arith, h.high))
                  small h.vacant)
        ])
      ]

  module _ (rules : StackRules) (storage : Option Storage) (handle : ℕ) (config : TaskConfig)
      (initialized : Option ℕ) (meanwhile : Sched → Sched) (s : Sched) (id : ℕ) where
    -- In a table of fewer than 255 slots: when os_task_create returns OS_ERR_NONE, the handle's new
    -- id names the task of the slot in the id, and every other id names what it named when the slot
    -- was claimed.
    pub create-find_by_id :
        k.table_size < 255
        → (create k c rules storage handle config initialized meanwhile s).0 ≡ ok
        → find_by_id k id (create k c rules storage handle config initialized meanwhile s).2 ≡ (
            if id == (create k c rules storage handle config initialized meanwhile s).1
            then some (id_slot (create k c rules storage handle config initialized meanwhile s).1)
            else find_by_id k id (meanwhile s))
    unfolding create create_any
    create-find_by_id small = elim (Option-cases initialized) [
      | inl failed ↦ rw failed λ done. ground (arith, done)
      | inr (stack_ptr, e) ↦ rw e λ done. ground (
        arith,
        done,
        create_claim-find_by_id handle config stack_ptr false (meanwhile s) id small,
      )
    ]

  -- The requested switch and the core's current task are of no concern to the ids.
  find_by_id-departed :
      (id : ℕ) (is_self wanted : Bool) (current : ℕ → Option ℕ) (s : Sched)
      → (let gone : Sched = if is_self then record s { current = current } else s in
          find_by_id k id (if wanted then switch_request k c gone else gone) ≡ find_by_id k id s)
  unfolding find_by_id switch_request
  find_by_id-departed id true true current s = refl
  find_by_id-departed id true false current s = refl
  find_by_id-departed id false true current s = refl
  find_by_id-departed id false false current s = refl

  slot-find_by_id : (id r : ℕ) (s : Sched) → find_by_id k id s ≡ some r → id_slot id ≡ r
  unfolding find_by_id
  slot-find_by_id id r s e = ground (arith, e)

  delete_task-find_by_id :
      (r : ℕ) (s : Sched) (id : ℕ) → id_slot id ≡ r → find_by_id k id (delete_task k c r s) ≡ none
  unfolding delete_task
  delete_task-find_by_id r s id slot =
      let cleared = tcb_clear k r (unlink k c r (wake_compensate k c r s)) in
      let is_self = points_to (s.current c.core) r in
      let current = update cleared.current c.core none in
      let gone : Sched = if is_self then record cleared { current = current } else cleared in
      find_by_id-departed id is_self (is_self && gone.kernel_running) current cleared
      ∙ (find_by_id-tcb_clear k r (unlink k c r (wake_compensate k c r s)) id
          ∙ ground (arith, slot))

  -- When os_task_delete of a handle returns OS_ERR_NONE, the handle's id names no task any more.
  pub delete-find_by_id :
      (handle : ℕ) (s : Sched)
      → (delete k c (some handle) s).0 ≡ ok
      → find_by_id k handle (delete k c (some handle) s).1 ≡ none
  unfolding delete delete_target
  delete-find_by_id handle s = elim (Option-cases (find_by_id k handle s)) [
    | inl unknown ↦ rw unknown λ done. ground (arith, done)
    | inr (r, e) ↦ rw e λ done.
        ground (arith, done, delete_task-find_by_id r s handle (slot-find_by_id handle r s e))
  ]
