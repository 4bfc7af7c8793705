-- ===== src/Log/Tests.antt =====
-- The theorem about the log at a concrete input.
use ahura_rtos.Shared.{ℕ, ◌≡◌, refl, some, List, [], ◌∷◌, ◌++◌, arith, u32_mod, ◌%◌, read_bytes}
use ahura_rtos.Task.Tests.{config, cpu, busy_system}
use ahura_rtos.Blocking.{World}
use ahura_rtos.Log.Defs.{Log, queue, chunk_length, advance, dropped_get}
use ahura_rtos.Log.Ring.{Holds}
use ahura_rtos.Log.Stream.{start, logs, takes, gives, Run-Delivers}

-- Eight bytes, the next of which to write is the last one.
abbrev quiet : World Log
quiet = record {
  sched = busy_system;
  now = 0;
  object = record { buffer = λ i. 0; head = 7; tail = 7; dropped = 0; dropped_pending = 0 };
}

quiet-Holds : Holds 8 quiet.object []
quiet-Holds = record {
  word = omega arith;
  inside = omega arith;
  behind = refl;
  few = omega arith;
  bytes = refl;
}

abbrev logged : World Log
logged = queue 8 config cpu (some 1) (65 ∷ 66 ∷ 67 ∷ []) quiet

-- A line that goes round the end of the buffer, and its first byte handed out.
Run-Delivers_example :
    (xs : List ℕ) × ((65 ∷ 66 ∷ 67 ∷ []
        ≡ read_bytes logged.object.buffer logged.object.tail (chunk_length 8 logged.object) ++ xs)
      × ((chunk_length 8 (advance 8 (chunk_length 8 logged.object) logged.object) ≡ 0
            → 65 ∷ 66 ∷ 67 ∷ []
              ≡ read_bytes logged.object.buffer logged.object.tail (chunk_length 8 logged.object))
          × (dropped_get (advance 8 (chunk_length 8 logged.object) logged.object) ≡ 0 % u32_mod)))
Run-Delivers_example =
    Run-Delivers 8 quiet quiet-Holds refl
      (gives (takes (logs config cpu (some 1) (65 ∷ 66 ∷ 67 ∷ []) start)))
