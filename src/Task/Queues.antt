-- ===== src/Task/Queues.antt =====
-- The scheduler's lists (kernel/os_task.c: os_task_make_ready, os_task_delay_insert,
-- os_task_delay_remove, os_task_wait_node_insert, and os_task_unlink up to the waiter list).
use ahura_rtos.Shared.{
  ℕ, true, false, not, ◌&&◌, List, [], ◌∷◌, ◌++◌, if◌then◌else◌, ltb, ◌==◌, update, erase, is_empty,
}
use ahura_rtos.Status.{wait_forever}
use ahura_rtos.Delta
use ahura_rtos.Delta.{Deltas}
use ahura_rtos.Task.State.{TaskState, is_ready, is_blocked, Sched}

unfoldable pub make_ready : ℕ → Sched → Sched
make_ready r s = record s {
  state = update s.state r TaskState.ready;
  ready_list = update s.ready_list (s.priority r) (s.ready_list (s.priority r) ++ r ∷ []);
  ready_bitmap = update s.ready_bitmap (s.priority r) true;
}

abbrev pub sleepers : Sched → Deltas
sleepers s = record { order = s.delay_list; ticks = s.delay_ticks }

unfoldable pub delay_insert : ℕ → ℕ → Sched → Sched
delay_insert r ticks s =
    let d = Delta.insert r ticks (sleepers s) in
    record s { delay_list = d.order; delay_ticks = d.ticks }

unfoldable pub delay_remove : ℕ → Sched → Sched
delay_remove r s =
    let d = Delta.remove r (sleepers s) in record s { delay_list = d.order; delay_ticks = d.ticks }

unfoldable pub ready_remove : ℕ → Sched → Sched
ready_remove r s =
    let list = erase r (s.ready_list (s.priority r)) in
    record s {
      ready_list = update s.ready_list (s.priority r) list;
      ready_bitmap =
          if is_empty list then update s.ready_bitmap (s.priority r) false else s.ready_bitmap;
    }

-- os_task_unlink, the list of the task's state
unfoldable pub unlink_state : ℕ → Sched → Sched
unlink_state r s =
    if is_ready (s.state r)
    then ready_remove r s
    else (if is_blocked (s.state r) && not (s.delay_ticks r == wait_forever)
        then delay_remove r s
        else s)

-- Behind every waiter of at least this priority.
unfoldable pub wait_place : (ℕ → ℕ) → ℕ → List ℕ → List ℕ
wait_place priority r [] = r ∷ []
wait_place priority r (q ∷ qs) =
    if ltb (priority q) (priority r) then r ∷ q ∷ qs else q ∷ wait_place priority r qs

-- os_task_wait_node_insert
unfoldable pub wait_node_insert : ℕ → ℕ → Sched → Sched
wait_node_insert list r s = record s {
  waiters = update s.waiters list (wait_place s.priority r (s.waiters list));
}

-- `os_list_remove(tcb->wait_list, &tcb->wait_node)` with a list that is not NULL.
unfoldable pub wait_node_remove : ℕ → ℕ → Sched → Sched
wait_node_remove list r s = record s { waiters = update s.waiters list (erase r (s.waiters list)) }
