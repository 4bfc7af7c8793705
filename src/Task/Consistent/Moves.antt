-- ===== src/Task/Consistent/Moves.antt =====
-- Moving one task between the lists.
use ahura_rtos.Shared.{
  ℕ, ◌≡◌, Bool, true, false, none, List, [], ◌∷◌, ◌++◌, arith, update, is_empty, count-append,
  count-erase_self, count-erase_ne, refl, sym, subst,
}
use ahura_rtos.Status.{wait_forever}
use ahura_rtos.Delta.Due.{Distinct}
use ahura_rtos.Delta.Span.{span-remove}
use ahura_rtos.Delta.Finite.{Distinct-of_count, order-remove, remove-ticks_finite}
use ahura_rtos.Task.State.{Config, Sched, in_table}
use ahura_rtos.Task.Queues.{make_ready, ready_remove, delay_remove, unlink_state, sleepers}
use ahura_rtos.Task.Consistent.Defs.{Ready, Delayed, Waiting, IsConsistent}

is_empty-snoc : (xs : List ℕ) (r : ℕ) → is_empty (xs ++ r ∷ []) ≡ false
is_empty-snoc [] r = refl
is_empty-snoc (x ∷ xs) r = refl

-- os_task_unlink changes the lists of states and the ticks, until it comes to the waiter list.
pub unlink_state_frame :
    (r : ℕ) (s : Sched)
    → unlink_state r s ≡ record s {
      ready_list = (unlink_state r s).ready_list;
      ready_bitmap = (unlink_state r s).ready_bitmap;
      delay_list = (unlink_state r s).delay_list;
      delay_ticks = (unlink_state r s).delay_ticks;
    }
unfolding unlink_state ready_remove delay_remove
unlink_state_frame r s = ground arith

module _ (k : Config) (ex : ℕ → Bool) (r : ℕ) (s : Sched) where
  make_ready-Ready :
      in_table k r ≡ true
      → ex r ≡ true
      → Ready k ex s
      → Ready k (update ex r false) (make_ready r s)
  unfolding make_ready
  make_ready-Ready inside out h = record {
    listed = λ q p. ground (arith, h.listed q p, count-append q (s.ready_list p) (r ∷ []));
    bit_set = λ p. ground (arith, h.bit_set p, is_empty-snoc (s.ready_list p) r);
  }

  make_ready-Delayed : ex r ≡ true → Delayed k ex s → Delayed k (update ex r false) (make_ready r s)
  unfolding make_ready
  make_ready-Delayed out h = record { listed = λ q. ground (arith, h.listed q); finite = h.finite }

  make_ready-Waiting : s.wait_list r ≡ none → Waiting k s → Waiting k (make_ready r s)
  unfolding make_ready
  make_ready-Waiting free h = record {
    listed = h.listed;
    blocked_only = λ q l e. ground (arith, h.blocked_only q l);
    inside = h.inside;
    sorted = h.sorted;
  }

  -- A task that is in no list, made ready.
  pub make_ready-IsConsistent :
      in_table k r ≡ true
      → ex r ≡ true
      → s.wait_list r ≡ none
      → IsConsistent k ex s
      → IsConsistent k (update ex r false) (make_ready r s)
  make_ready-IsConsistent inside out free h = record {
    ready = make_ready-Ready inside out h.ready;
    delayed = make_ready-Delayed out h.delayed;
    waiting = make_ready-Waiting free h.waiting;
  }

  pub Delayed-Distinct : Delayed k ex s → Distinct s.delay_list
  Delayed-Distinct h = Distinct-of_count s.delay_list (λ q. ground (arith, h.listed q))

  unlink_state-Ready : ex r ≡ false → Ready k ex s → Ready k (update ex r true) (unlink_state r s)
  unfolding unlink_state ready_remove delay_remove
  unlink_state-Ready unmarked h = record {
    listed = λ q p. ground (
      arith,
      h.listed q p,
      count-erase_self r (s.ready_list p),
      count-erase_ne q r (s.ready_list p),
    );
    bit_set = λ p. ground (arith, h.bit_set p);
  }

  unlink_state-Delayed :
      ex r ≡ false → Delayed k ex s → Delayed k (update ex r true) (unlink_state r s)
  unfolding unlink_state ready_remove delay_remove
  unlink_state-Delayed unmarked h =
      let d = Delayed-Distinct h in
      record {
        listed = λ q. ground (
          arith,
          h.listed q,
          h.finite,
          order-remove r (sleepers s),
          remove-ticks_finite wait_forever r (sleepers s) d q h.finite,
          count-erase_self r s.delay_list,
          count-erase_ne q r s.delay_list,
        );
        finite = ground (arith, h.finite, span-remove r (sleepers s) d);
      }

  unlink_state-Waiting : Waiting k s → Waiting k (unlink_state r s)
  unlink_state-Waiting h = subst (Waiting k) (sym (unlink_state_frame r s)) h

  -- A task leaves the list of its state.
  pub unlink_state-IsConsistent :
      ex r ≡ false → IsConsistent k ex s → IsConsistent k (update ex r true) (unlink_state r s)
  unlink_state-IsConsistent unmarked h = record {
    ready = unlink_state-Ready unmarked h.ready;
    delayed = unlink_state-Delayed unmarked h.delayed;
    waiting = unlink_state-Waiting h.waiting;
  }
