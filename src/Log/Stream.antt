-- ===== src/Log/Stream.antt =====
-- What the log task hands out is what was logged, line by line, less the lines that were dropped
-- and reported (kernel/os_log.c).
use ahura_rtos.Shared.{
  ℕ, suc, ◌+◌, ◌-◌, ◌%◌, ◌≤◌, ◌≡◌, refl, sym, ap, ◌∙◌, subst, Option, List, [], ◌∷◌, ◌++◌, arith,
  length, take, drop, length-append, Bool, u32_mod, if◌then◌else◌, ltb, read_bytes, Bool-cases, inl,
  inr,
}
use mathlib.Core.List.{append_assoc, append-nil}
use ahura_rtos.Shared.Circle.Writes.{take-drop, length-take}
use ahura_rtos.Task.State.{Config, Cpu, Sched}
use ahura_rtos.Blocking.{World}
use ahura_rtos.Log.Defs.{Log, free_space, put, drop_line, queue, chunk_length, advance, dropped_get}
use ahura_rtos.Log.Ring.{Holds, free_space-Holds, put-Holds, chunk-Holds, chunk_length-le}

module _ (size : ℕ) where
  -- Whether a line does not fit beside the bytes that were logged and are not yet handed out.
  abbrev pub too_long : List ℕ → List ℕ → List ℕ → Bool
  too_long out logged line = ltb (size - 1 - (length logged - length out)) (length line)

  -- Tasks log, the log task hands out, and all else happens: how many bytes the log task has in
  -- hand, the bytes that it has handed out, the lines that were logged and not dropped, one after
  -- the other, and how many were dropped.
  pub data Run (first : World Log) : World Log → ℕ → List ℕ → List ℕ → ℕ → Type 0 where
    start : Run first first 0 [] [] 0
    logs :
        {w : World Log} {n lost : ℕ} {out logged : List ℕ} (k : Config) (c : Cpu)
        (log_task : Option ℕ) (line : List ℕ)
        → Run first w n out logged lost
        → Run first
            (queue size k c log_task line w)
            n
            out
            (if too_long out logged line then logged else logged ++ line)
            (if too_long out logged line then suc lost else lost)
    takes :
        {w : World Log} {lost : ℕ} {out logged : List ℕ}
        → Run first w 0 out logged lost
        → Run first w (chunk_length size w.object) out logged lost
    gives :
        {w : World Log} {n lost : ℕ} {out logged : List ℕ}
        → Run first w n out logged lost
        → Run first
            (record w { object = advance size n w.object })
            0
            (out ++ read_bytes w.object.buffer w.object.tail n)
            logged
            lost
    goes_on :
        {w : World Log} {n lost : ℕ} {out logged : List ℕ} (s : Sched)
        → Run first w n out logged lost
        → Run first (record w { sched = s }) n out logged lost

  -- What holds on the way.
  record Going (g : Log) (n : ℕ) (out logged : List ℕ) (lost : ℕ) (xs : List ℕ) : Type 0 where
    holds : Holds size g xs
    whole : logged ≡ out ++ xs
    in_hand : n ≤ length xs
    straight : g.tail + n ≤ size
    counted : g.dropped ≡ lost % u32_mod

  no_bytes : (xs : List ℕ) → length xs ≡ 0 → xs ≡ []
  no_bytes [] h = refl
  no_bytes (x ∷ xs) h = absurd (omega (arith, h))

  spread : (out xs logged : List ℕ) → logged ≡ out ++ xs → length logged ≡ length out + length xs
  spread out xs logged e = ap length e ∙ length-append out xs

  module _ (first : World Log) (empty : Holds size first.object [])
      (fresh : first.object.dropped ≡ 0) where
    Run-Going :
        {w : World Log} {n lost : ℕ} {out logged : List ℕ}
        → Run first w n out logged lost
        → (xs : List ℕ) × Going w.object n out logged lost xs
    unfolding queue put drop_line advance
    Run-Going start = (
      [],
      record {
        holds = empty;
        whole = refl;
        in_hand = omega arith;
        straight = omega (arith, empty.inside);
        counted = fresh;
      },
    )
    Run-Going (logs {w} {n} {lost} {out} {logged} k c log_task line run) =
        let (xs, g) = Run-Going run in
        let room : free_space size w.object ≡ size - 1 - (length logged - length out) =
          free_space-Holds size w.object xs g.holds
          ∙ ap (λ t. size - 1 - t) (omega (arith, spread out xs logged g.whole)) in
        elim (Bool-cases (too_long out logged line)) [
          | inl full ↦
              rw (queue, room, full)
                (
                  xs,
                  record {
                    holds = record {
                      word = g.holds.word;
                      inside = g.holds.inside;
                      behind = g.holds.behind;
                      few = g.holds.few;
                      bytes = g.holds.bytes;
                    };
                    whole = g.whole;
                    in_hand = g.in_hand;
                    straight = g.straight;
                    counted = omega (arith, g.counted);
                  },
                )
          | inr fits ↦
              rw (queue, room, fits)
                (
                  xs ++ line,
                  record {
                    holds =
                        put-Holds size w.object xs g.holds line
                          (ground (arith, fits, spread out xs logged g.whole, g.holds.few));
                    whole = ap (λ l. l ++ line) g.whole ∙ append_assoc out xs line;
                    in_hand = omega (arith, g.in_hand, length-append xs line);
                    straight = g.straight;
                    counted = g.counted;
                  },
                )
        ]
    Run-Going (takes {w} run) =
        let (xs, g) = Run-Going run in
        let (few, (low, all)) = chunk_length-le size w.object xs g.holds in
        (
          xs,
          record {
            holds = g.holds;
            whole = g.whole;
            in_hand = few;
            straight = low;
            counted = g.counted;
          },
        )
    Run-Going (gives {w} {n} {lost} {out} run) =
        let (xs, g) = Run-Going run in
        let cut = take-drop n xs in
        let len : length (take n xs) ≡ n = length-take n xs g.in_hand in
        let (bytes, rest) =
          chunk-Holds size w.object xs g.holds (take n xs) (drop n xs) (sym cut)
            (omega (arith, len, g.straight)) in
        (
          drop n xs,
          record {
            holds = subst (λ t. Holds size (advance size t w.object) (drop n xs)) len rest;
            whole =
                g.whole
                ∙ (ap (λ l. out ++ l)
                      (sym cut
                        ∙ ap (λ l. l ++ drop n xs)
                            (subst (λ t. take n xs ≡ read_bytes w.object.buffer w.object.tail t) len
                              (sym bytes)))
                    ∙ sym (
                        append_assoc out (read_bytes w.object.buffer w.object.tail n) (drop n xs)));
            in_hand = omega arith;
            straight = omega (arith, rest.inside, len);
            counted = g.counted;
          },
        )
    Run-Going (goes_on s run) = Run-Going run

    -- From a log with an empty buffer and no line dropped, after any sequence of lines logged and
    -- chunks handed out, whatever else runs: what was handed out is the beginning of what was
    -- logged, it is all of it when the log task finds nothing in the ring, and os_log_dropped_get
    -- counts the dropped lines, as a 32-bit word. A line is dropped exactly if it does not fit
    -- beside the bytes that are not yet handed out.
    pub Run-Delivers :
        {w : World Log} {n lost : ℕ} {out logged : List ℕ}
        → Run first w n out logged lost
        → (xs : List ℕ) × ((logged ≡ out ++ xs)
            × ((chunk_length size w.object ≡ 0 → logged ≡ out)
                × (dropped_get w.object ≡ lost % u32_mod)))
    unfolding dropped_get
    Run-Delivers {w} {n} {lost} {out} {logged} run =
        let (xs, g) = Run-Going run in
        let (few, (low, all)) = chunk_length-le size w.object xs g.holds in
        (
          xs,
          (
            g.whole,
            (
              λ nothing.
                  g.whole ∙ (ap (λ l. out ++ l) (no_bytes xs (all nothing)) ∙ append-nil out),
              g.counted,
            ),
          ),
        )
