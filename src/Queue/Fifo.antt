-- ===== src/Queue/Fifo.antt =====
-- The ring of kernel/os_queue.c is a bounded queue, first in first out.
use ahura_rtos.Shared.{
  ℕ, zero, suc, ◌+◌, ◌-◌, ◌*◌, ◌%◌, ◌≤◌, ◌<◌, ◌≡◌, ◌≢◌, refl, sym, ap, ap₂, ◌∙◌, Bool, false, ◌&&◌,
  ◌||◌, List, [], ◌∷◌, ◌++◌, arith, if◌then◌else◌, ltb, ◌==◌, length, drop, add32, u32_mod, mod_low,
  mod_ne, mod_step, Bool-cases, inl, inr,
}
use ahura_rtos.Status.{ok, full, empty, timeout}
use ahura_rtos.Task.State.{Config, Cpu}
use ahura_rtos.Blocking.{World, Verdict, done, wait, nonblocking}
use ahura_rtos.Queue.Defs.{
  Queue, Mode, is_overwrite, store, put, put_over, get, sent, send_pass, Receiver, receive_pass,
}
use ahura_rtos.Queue.Ring.{slot, items, items-push, items-advance}
use native.Mathlib.Nat.{mod-lt, mod-add-mod}

-- The items from the oldest to the newest.
abbrev pub contents : Queue → List (List ℕ)
contents q = items q.bytes q.item_size q.capacity q.head q.count 0

-- The cursors are slots, the tail is where the next item goes, and the buffer's size is a word.
pub record IsValid (q : Queue) : Type 0 where
  pub positive : 0 < q.capacity
  pub word : q.capacity < u32_mod
  pub bytes_word : q.capacity * q.item_size < u32_mod
  pub few : q.count ≤ q.capacity
  pub inside : q.head < q.capacity
  pub behind : q.tail ≡ (q.head + q.count) % q.capacity

length-items :
    (bytes : ℕ → ℕ) (size capacity head n k : ℕ) → length (items bytes size capacity head n k) ≡ n
length-items bytes size capacity head zero k = refl
length-items bytes size capacity head (suc n) k =
    ap suc (length-items bytes size capacity head n (k + 1))

module _ (q : Queue) (v : IsValid q) where
  tail_inside : q.tail < q.capacity
  tail_inside = rw v.behind (mod-lt (q.head + q.count) v.positive)

  next_tail : add32 q.tail 1 % q.capacity ≡ (q.head + (q.count + 1)) % q.capacity
  next_tail =
      ap (λ t. t % q.capacity) (mod_low (q.tail + 1) u32_mod (omega (arith, tail_inside, v.word)))
      ∙ (ap (λ t. (t + 1) % q.capacity) v.behind
          ∙ (mod-add-mod (q.head + q.count) q.capacity 1 ∙ ap (λ t. t % q.capacity) (omega arith)))

  next_head : add32 q.head 1 % q.capacity ≡ (q.head + 1) % q.capacity
  next_head =
      ap (λ t. t % q.capacity) (mod_low (q.head + 1) u32_mod (omega (arith, v.inside, v.word)))

  -- The slots of the items, from the k-th on, are not the one at the tail.
  tail_apart :
      (k n : ℕ)
      → k + n ≤ q.count
      → q.count < k + q.capacity
      → (j : ℕ) → k ≤ j
      → j < k + n
      → (q.head + j) % q.capacity ≢ q.tail
  tail_apart k n less near j low high e =
      mod_ne q.head j q.count q.capacity v.inside (omega arith) (omega arith) (omega (arith, v.few))
        (e ∙ v.behind)

  count_next : q.count < q.capacity → add32 q.count 1 ≡ suc q.count
  count_next room = mod_low (q.count + 1) u32_mod (omega (arith, v.word)) ∙ omega arith

  put-IsValid : (item : List ℕ) → q.count < q.capacity → IsValid (put item q)
  unfolding put store
  put-IsValid item room = record {
    positive = v.positive;
    word = v.word;
    bytes_word = v.bytes_word;
    few = omega (arith, count_next room);
    inside = v.inside;
    behind = next_tail ∙ ap (λ n. (q.head + n) % q.capacity) (omega (arith, count_next room));
  }

  put-contents :
      (item : List ℕ)
      → length item ≡ q.item_size
      → q.count < q.capacity
      → contents (put item q) ≡ contents q ++ item ∷ []
  unfolding put store
  put-contents item fits room =
      ap (λ n. items (put item q).bytes q.item_size q.capacity q.head n 0) (count_next room)
      ∙ items-push q.bytes q.item_size q.capacity q.head item q.tail q.count 0 fits
          (ap (λ n. (q.head + n) % q.capacity) (omega arith) ∙ sym v.behind)
          (tail_apart 0 q.count (omega arith) (omega arith))

  get-IsValid : 0 < q.count → IsValid (get q).1
  unfolding get
  get-IsValid some_there = record {
    positive = v.positive;
    word = v.word;
    bytes_word = v.bytes_word;
    few = omega (arith, v.few);
    inside = mod-lt (add32 q.head 1) v.positive;
    behind =
        v.behind
        ∙ (ap (λ n. (q.head + n) % q.capacity) (omega arith)
            ∙ (sym (mod_step q.head (q.count - 1) q.capacity)
                ∙ ap (λ h. (h + (q.count - 1)) % q.capacity) (sym next_head)));
  }

  first_slot : (q.head + 0) % q.capacity ≡ q.head
  first_slot = mod_low (q.head + 0) q.capacity (omega (arith, v.inside)) ∙ omega arith

  get-contents : 0 < q.count → contents q ≡ (get q).0 ∷ contents (get q).1
  unfolding get
  get-contents some_there =
      let e : q.count ≡ suc (q.count - 1) = omega arith in
      ap (λ n. items q.bytes q.item_size q.capacity q.head n 0) e
      ∙ ap₂ ◌∷◌ (ap (slot q.bytes q.item_size) first_slot) (
          sym (
            ap (λ h. items q.bytes q.item_size q.capacity h (q.count - 1) 0) next_head
            ∙ items-advance q.bytes q.item_size q.capacity q.head (q.count - 1) 0))

  put_over-IsValid : (item : List ℕ) → q.count ≡ q.capacity → IsValid (put_over item q)
  unfolding put_over store
  put_over-IsValid item full_up = record {
    positive = v.positive;
    word = v.word;
    bytes_word = v.bytes_word;
    few = v.few;
    inside = mod-lt (add32 q.head 1) v.positive;
    behind =
        next_tail
        ∙ (sym (mod_step q.head q.count q.capacity)
            ∙ ap (λ h. (h + q.count) % q.capacity) (sym next_head));
  }

  put_over-contents :
      (item : List ℕ)
      → length item ≡ q.item_size
      → q.count ≡ q.capacity
      → contents (put_over item q) ≡ drop 1 (contents q) ++ item ∷ []
  unfolding put_over store
  put_over-contents item fits full_up =
      let n = q.count - 1 in
      let e : q.count ≡ suc n = omega (arith, v.positive) in
      ap (λ h. items (put_over item q).bytes q.item_size q.capacity h q.count 0) next_head
      ∙ (items-advance (put_over item q).bytes q.item_size q.capacity q.head q.count 0
          ∙ (ap (λ m. items (put_over item q).bytes q.item_size q.capacity q.head m 1) e
              ∙ (items-push q.bytes q.item_size q.capacity q.head item q.tail n 1 fits
                    (ap (λ m. (q.head + m) % q.capacity) (omega (arith, e)) ∙ sym v.behind)
                    (tail_apart 1 n (omega (arith, e)) (omega (arith, full_up)))
                  ∙ ap (λ m. drop 1 (items q.bytes q.item_size q.capacity q.head m 0) ++ item ∷ [])
                      (sym e))))

-- A bounded queue of items, first in first out. `at_once` says that the caller may not wait.
module _ (at_once : Bool) (remaining : ℕ) where
  -- Sending to a queue of a capacity: a full one in overwrite mode drops the oldest item once the
  -- caller is out of time.
  unfoldable pub fifo_send : ℕ → Mode → List ℕ → List (List ℕ) → Verdict × List (List ℕ)
  fifo_send capacity mode item l =
      if ltb (length l) capacity
      then (done ok, l ++ item ∷ [])
      else (if is_overwrite mode && (at_once || remaining == 0)
          then (done ok, drop 1 l ++ item ∷ [])
          else (if at_once then done full else (if remaining == 0 then done timeout else wait), l))

  -- Receiving: the oldest item, or what was in the caller's memory.
  unfoldable pub fifo_receive : List ℕ → List (List ℕ) → Verdict × List ℕ × List (List ℕ)
  fifo_receive old [] =
      (if at_once then done empty else (if remaining == 0 then done timeout else wait), old, [])
  fifo_receive old (x ∷ l) = (done ok, x, l)

module _ (k : Config) (c : Cpu) (timeout_ms remaining : ℕ) where
  module _ (w : World Queue) (v : IsValid w.object) (item : List ℕ) where
    length-contents : length (contents w.object) ≡ w.object.count
    length-contents =
        length-items w.object.bytes w.object.item_size w.object.capacity w.object.head
          w.object.count 0

    -- For a valid queue and an item of its size: a critical section of os_queue_send does to the
    -- items what a bounded first-in-first-out queue does, with the same verdict, and leaves the
    -- queue valid.
    pub send_pass-fifo_send :
        length item ≡ w.object.item_size
        → (let (verdict, w') = send_pass k c item timeout_ms remaining w in
            ((verdict, contents w'.object)
              ≡ fifo_send
                  (nonblocking c timeout_ms w.sched)
                  remaining
                  w.object.capacity
                  w.object.mode
                  item
                  (contents w.object))
            × IsValid w'.object)
    unfolding send_pass fifo_send sent
    send_pass-fifo_send fits =
        let q = w.object in
        rw length-contents (elim (Bool-cases (ltb q.count q.capacity)) [
          | inl room ↦ rw room (
            ap (λ l. (done ok, l)) (put-contents q v item fits (ground arith)),
            put-IsValid q v item (ground arith),
          )
          | inr no_room ↦
              let bound : (q.capacity == 0) ≡ false = ground (arith, v.positive) in
              rw (no_room, bound)
                (elim (Bool-cases
                  (is_overwrite q.mode && (nonblocking c timeout_ms w.sched || remaining == 0))) [
                    | inl over ↦ rw over (
                      ap (λ l. (done ok, l))
                          (put_over-contents q v item fits (ground (arith, v.few))),
                      put_over-IsValid q v item (ground (arith, v.few)),
                    )
                    | inr keeps ↦ rw keeps (elim (Bool-cases (nonblocking c timeout_ms w.sched)) [
                      | inl now ↦ rw now (refl, v)
                      | inr later ↦ rw later (elim (Bool-cases (remaining == 0)) [
                        | inl late ↦ rw late (refl, v)
                        | inr early ↦ rw early (refl, v)
                      ])
                    ])
                  ])
        ])

  module _ (w : World Receiver) (v : IsValid w.object.queue) where
    -- For a valid queue: a critical section of os_queue_receive does to the items and to the
    -- caller's memory what a first-in-first-out queue does, with the same verdict, and leaves the
    -- queue valid.
    pub receive_pass-fifo_receive :
        (let (verdict, w') = receive_pass k c timeout_ms remaining w in
          ((verdict, w'.object.item_out, contents w'.object.queue)
            ≡ fifo_receive
                (nonblocking c timeout_ms w.sched)
                remaining
                w.object.item_out
                (contents w.object.queue))
          × IsValid w'.object.queue)
    unfolding receive_pass fifo_receive
    receive_pass-fifo_receive =
        let q = w.object.queue in
        elim (Bool-cases (ltb 0 q.count)) [
          | inl there ↦
              let pos : 0 < q.count = ground (arith, there) in
              rw (there, get-contents q v pos) (refl, get-IsValid q v pos)
          | inr gone ↦
              let none_there : q.count ≡ 0 = ground (arith, gone) in
              let empty_list : contents q ≡ [] =
                ap (λ n. items q.bytes q.item_size q.capacity q.head n 0) none_there in
              rw (gone, empty_list)
                (elim (Bool-cases (nonblocking c timeout_ms w.sched)) [
                  | inl now ↦ rw (now, empty_list) (refl, v)
                  | inr later ↦ rw later (elim (Bool-cases (remaining == 0)) [
                    | inl late ↦ rw (late, empty_list) (refl, v)
                    | inr early ↦ rw (early, empty_list) (refl, v)
                  ])
                ])
        ]
