-- ===== src/Notify/Tests.antt =====
-- The theorems about notifications at concrete inputs.
use ahura_rtos.Shared.{
  ℕ, ◌≡◌, refl, true, none, some, ◌&&◌, ◌||◌, if◌then◌else◌, ◌==◌, update, is_null,
}
use ahura_rtos.Status.{ok, empty, timeout}
use ahura_rtos.Task.State.{ready, is_blocked}
use ahura_rtos.Task.Ids.{find_by_id, id_slot}
use ahura_rtos.Task.Tests.{config, cpu, busy_system}
use ahura_rtos.Blocking.{World, done, wait, nonblocking}
use ahura_rtos.Notify.Defs.{Slots, Waiter, receiver, give, wait_pass}
use ahura_rtos.Notify.Mailbox.{mail, give-mail, wait_pass-mail}

-- Task 1 waits for a notification, and task 0 has one of the value 9.
abbrev slots : Slots
slots = record { value = λ r. 9; pending = λ r. r == 0; waiting = λ r. r == 1 }

abbrev giver : World Slots
giver = record { sched = busy_system; now = 0; object = slots }

found : receiver config cpu (some 33554433) busy_system ≡ some 1
unfolding find_by_id id_slot
found = refl

give-mail_example :
    (let (status, w') = give config cpu (some 33554433) 5 giver in
      (status ≡ ok)
      × (((q : ℕ) → mail w'.object q ≡ update (mail slots) 1 (some 5) q)
          × ((is_blocked (busy_system.state 1) && slots.waiting 1) ≡ true
              → w'.sched.state 1 ≡ ready)))
give-mail_example = give-mail config cpu (some 33554433) 5 1 giver found

abbrev waiter : World Waiter
waiter = record {
  sched = busy_system;
  now = 0;
  object = record { slots = slots; value_out = some 0 };
}

wait_pass-mail_example :
    (let (verdict, w') = wait_pass config cpu 0 0 waiter in
      (verdict ≡ (
        if is_null (mail slots 0)
        then (if nonblocking cpu 0 busy_system
            then done empty
            else (if 0 == 0 then done timeout else wait))
        else done ok))
      × (((q : ℕ) → mail w'.object.slots q ≡ update (mail slots) 0 none q)
          × (w'.object.value_out ≡ (
              if is_null waiter.object.value_out || is_null (mail slots 0)
              then some 0
              else mail slots 0))))
wait_pass-mail_example = wait_pass-mail config cpu 0 0 0 waiter refl
