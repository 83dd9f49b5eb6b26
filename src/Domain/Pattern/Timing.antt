-- ===== src/Domain/Pattern/Timing.antt =====
-- pattern_controller.cc, BinaryPattern: what a pattern shows depends only on the time since it was
-- configured.
use native.Mathlib.Nat.{mul-le-mul}
use mentor_pi_ros.Prelude.{
  ℕ, ◌+◌, ◌-◌, ◌*◌, ◌%◌, ◌^◌, ◌≤◌, ◌<◌, ◌≡◌, refl, ap, ◌∙◌, Bool, true, false, ◌&&◌, List, [], ◌∷◌,
  arith, ltb, leb, ◌!=◌, if◌then◌else◌, u32, u64, sub32,
}
use mentor_pi_ros.Domain.Pattern.{
  PatternOutput, BinaryPattern, configure, accumulate_elapsed, shown, update,
}

-- The output at `elapsed` milliseconds: the repetitions that are left, and the part of the cycle.
abbrev pub pattern_at : ℕ → ℕ → ℕ → ℕ → PatternOutput
pattern_at on off repeat elapsed =
    if repeat != 0 && leb ((on + off) * repeat) elapsed
    then record { on = false; complete = true }
    else record { on = ltb (elapsed % (on + off)) on; complete = false }

-- Times of the clock without wrap, each less than 2 ^ 32 ms after the one before; `now` is the
-- last.
unfoldable pub advancing : ℕ → List ℕ → ℕ → Bool
advancing start [] now = leb start now && ltb now (start + 2 ^ 32)
advancing start (time ∷ times) now =
    leb start time && ltb time (start + 2 ^ 32) && advancing time times now

-- The updates at the times, of which the code sees the low 32 bits.
unfoldable pub updates : BinaryPattern → List ℕ → BinaryPattern
updates p [] = p
updates p (now ∷ times) = updates (update p (u32 now)).0 times

module _ (on off repeat start : ℕ) where
  -- A pattern configured at `start` and updated last at `now`.
  pub record Runs (p : BinaryPattern) (now : ℕ) : Type 0 where
    pub same_on : p.on_time_ms ≡ on
    pub same_off : p.off_time_ms ≡ off
    pub same_repeat : p.repeat ≡ repeat
    pub configured : p.initialized ≡ true
    pub since : p.elapsed_ms + start ≡ now
    pub last : p.previous_update_ms ≡ u32 now

module _ (on off repeat start : ℕ) (some_on : 0 < on) (some_off : 0 < off) where
  pub update-Runs :
      (p : BinaryPattern) (last now : ℕ)
      → Runs on off repeat start p last
      → last ≤ now
      → now < last + 2 ^ 32
      → now < start + 2 ^ 64
      → Runs on off repeat start (update p (u32 now)).0 now
  unfolding update accumulate_elapsed
  update-Runs p last now h le lt bound = ground arith

  -- The products of 16-bit fields stay far below 2 ^ 64.
  pub update-shows :
      (p : BinaryPattern) (last now : ℕ)
      → Runs on off repeat start p last
      → last ≤ now
      → now < last + 2 ^ 32
      → now < start + 2 ^ 64
      → (on + off) * repeat < 2 ^ 64
      → (update p (u32 now)).1 ≡ pattern_at on off repeat (now - start)
  unfolding update accumulate_elapsed shown
  update-shows p last now h le lt bound fits =
      let elapsed : u64 (p.elapsed_ms + sub32 (u32 now) p.previous_update_ms) ≡ now - start =
        omega (arith, h.since, h.last, le, lt, bound) in
      let product : u64 ((p.on_time_ms + p.off_time_ms) * p.repeat) ≡ (on + off) * repeat =
        ap (λ t. u64 ((t + p.off_time_ms) * p.repeat)) h.same_on
        ∙ ap (λ t. u64 ((on + t) * p.repeat)) h.same_off
        ∙ ap (λ t. u64 ((on + off) * t)) h.same_repeat
        ∙ omega (arith, fits) in
      ground (arith, elapsed, product)

advancing-le : (last : ℕ) (times : List ℕ) (now : ℕ) → advancing last times now ≡ true → last ≤ now
unfolding advancing
advancing-le last [] now h = ground arith
advancing-le last (time ∷ times) now h =
    let rest = advancing-le time times now (ground arith) in ground arith

cycle-fits :
    (on off repeat : ℕ)
    → on < 2 ^ 16
    → off < 2 ^ 16
    → repeat < 2 ^ 16
    → (on + off) * repeat < 2 ^ 64
cycle-fits on off repeat p q r =
    let cycle : on + off ≤ 2 ^ 17 = omega (arith, p, q) in
    let often : repeat ≤ 2 ^ 16 = omega (arith, r) in omega (arith, mul-le-mul cycle often)

module _ (on off repeat start : ℕ) (some_on : 0 < on) (some_off : 0 < off) where
  updates-show :
      (p : BinaryPattern) (last : ℕ) (times : List ℕ) (now : ℕ)
      → Runs on off repeat start p last
      → advancing last times now ≡ true
      → now < start + 2 ^ 64
      → (on + off) * repeat < 2 ^ 64
      → (update (updates p times) (u32 now)).1 ≡ pattern_at on off repeat (now - start)
  unfolding updates advancing
  updates-show p last [] now h ahead bound fits =
      update-shows on off repeat start some_on some_off p last now h (ground arith) (ground arith)
        bound fits
  updates-show p last (time ∷ times) now h ahead bound fits =
      let later = advancing-le time times now (ground arith) in
      updates-show (update p (u32 time)).0 time times now
        (update-Runs on off repeat start some_on some_off p last time h (ground arith)
          (ground arith) (omega (arith, later, bound)))
        (ground arith) bound fits

-- A pattern with positive on and off times, updated at any times less than 2 ^ 32 ms apart, shows
-- at each update what its number of repetitions and the part of the cycle say for the time since
-- it was configured, up to 2 ^ 64 ms and across the wraps of the 32-bit clock.
pub pattern_follows_clock :
    (on off repeat start : ℕ) (times : List ℕ) (now : ℕ)
    → 0 < on
    → 0 < off
    → on < 2 ^ 16
    → off < 2 ^ 16
    → repeat < 2 ^ 16
    → advancing start times now ≡ true
    → now < start + 2 ^ 64
    → (update (updates (configure on off repeat (u32 start)) times) (u32 now)).1
      ≡ pattern_at on off repeat (now - start)
unfolding configure
pattern_follows_clock on off repeat start times now some_on some_off p q r ahead bound =
    updates-show on off repeat start some_on some_off _ start times now
      record {
        same_on = refl;
        same_off = refl;
        same_repeat = refl;
        configured = refl;
        since = omega arith;
        last = refl;
      }
      ahead bound (cycle-fits on off repeat p q r)
