-- ===== src/Domain/Button/Protocol.antt =====
-- button_controller.cc: the events of a button follow a protocol.
use mathlib.Core.List.{append-nil}
use mentor_pi_ros.Prelude.{
  ℕ, zero, suc, ◌+◌, ◌&&◌, ◌!=◌, leb, ltb, ◌||◌, same, sub32, u8, subst, ◌≤◌, ◌≡◌, ◌⊎◌, refl, ap,
  sym, ◌∙◌, Bool, true, false, not, Option, none, some, List, [], ◌∷◌, ◌++◌, map, arith, ◌==◌,
  if◌then◌else◌, inl, inr, both, both_when,
}
use mentor_pi_ros.Domain.Button.{
  ButtonEventType, pressed, long_press, long_press_repeat, release_from_long_press,
  release_from_short_press, click, double_click, triple_click, ButtonEvent, ButtonState, initial,
  button_multi_click_ms, button_long_press_ms, deadline_reached, emit, on_pressed, multi_click,
  on_released, process_held, forget_clicks, count_sample, accept_sample, process_button,
}

-- A released button with the clicks that a next press may continue, a pressed one with the number
-- of its click in such a row (0 when it begins one), and one whose long press has been told.
pub data Phase : Type 0 where
  up down : ℕ → Phase
  held : Phase

-- What the events of one sample may be, and what they lead to.
unfoldable pub follow : Phase → List ButtonEventType → Option Phase
follow phase [] = some phase
follow (up clicks) (pressed ∷ []) = some (down 0)
follow (up clicks) (pressed ∷ double_click ∷ []) = if clicks == 1 then some (down 2) else none
follow (up clicks) (pressed ∷ triple_click ∷ []) = if clicks == 2 then some (down 3) else none
follow (down count) (release_from_short_press ∷ click ∷ []) =
    some (up (if count == 0 then 1 else if count == 3 then 0 else count))
follow (down count) (long_press ∷ []) = some held
follow held (long_press_repeat ∷ []) = some held
follow held (release_from_long_press ∷ []) = some (up 0)
follow _ _ = none

abbrev pub kind : ButtonEvent → ButtonEventType
kind e = e.event

-- One sample of a button at each time, and the kinds of the events of each.
unfoldable pub batches_of : ℕ → ButtonState → List (Bool × ℕ) → List (List ButtonEventType)
batches_of index s [] = []
batches_of index s (reading ∷ readings) =
    let next = process_button index s reading.0 reading.1 in
    map kind next.1 ∷ batches_of index next.0 readings

unfoldable pub follow_all : Phase → List (List ButtonEventType) → Option Phase
follow_all phase [] = some phase
follow_all phase (batch ∷ batches) = elim (follow phase batch) [
  | none ↦ none
  | some next ↦ follow_all next batches
]

unfoldable pub state_after : ℕ → ButtonState → List (Bool × ℕ) → ButtonState
state_after index s [] = s
state_after index s (reading ∷ readings) =
    state_after index (process_button index s reading.0 reading.1).0 readings

-- The phase of the protocol shows a state; the clicks of a released button may have been forgotten.
abbrev pub Shows : Phase → ButtonState → Type 0
Shows (up clicks) s =
    (s.debounced_pressed ≡ false) × ((s.click_count ≡ clicks) ⊎ (s.click_count ≡ 0)) × (clicks ≤ 2)
Shows (down count) s =
    (s.debounced_pressed ≡ true)
    × (s.long_press_emitted ≡ false)
    × (s.click_count ≡ count)
    × (count ≤ 3)
    × (s.triple_emitted ≡ (count == 3))
Shows held s = (s.debounced_pressed ≡ true) × (s.long_press_emitted ≡ true)

-- The events of a sample may follow the phase, and lead to one that shows the next state.
abbrev Follows : Phase → ButtonState × List ButtonEvent → Type 0
Follows phase result =
    (next : Phase) × (follow phase (map kind result.1) ≡ some next) × Shows next result.0

forget-Shows :
    (phase : Phase) (s : ButtonState) (now : ℕ) → Shows phase s → Shows phase (forget_clicks s now)
unfolding forget_clicks
forget-Shows (up clicks) s now h = both (Shows (up clicks)) _ (h.0, inr refl, h.2) h
forget-Shows (down count) s now h = ground arith
forget-Shows held s now h = both (Shows held) _ h h

count-Shows :
    (phase : Phase) (s : ButtonState) (raw : Bool)
    → Shows phase s
    → Shows phase (count_sample s raw)
unfolding count_sample
count-Shows (up clicks) s raw h = ground arith
count-Shows (down count) s raw h = ground arith
count-Shows held s raw h = ground arith

-- The events of a press that continues a row of clicks.
next_click :
    (clicks index now : ℕ)
    → (clicks ≡ 0 → ⊥)
    → clicks ≤ 2
    → follow
        (up clicks)
        (map kind (emit index pressed now ∷ multi_click index (u8 (clicks + 1)) now))
      ≡ some (down (u8 (clicks + 1)))
unfolding follow multi_click
next_click zero index now some_click few = absurd (some_click refl)
next_click (suc zero) index now some_click few = refl
next_click (suc (suc zero)) index now some_click few = refl
next_click (suc (suc (suc n))) index now some_click few = absurd (omega (arith, few))

press-Follows :
    (clicks index : ℕ) (s : ButtonState) (now : ℕ)
    → (s.click_count ≡ clicks) ⊎ (s.click_count ≡ 0)
    → clicks ≤ 2
    → s.debounced_pressed ≡ true
    → Follows (up clicks) (on_pressed index s now)
unfolding on_pressed multi_click follow
press-Follows clicks index s now h few on =
    both_when (Follows (up clicks))
      (s.click_count != 0 && leb (sub32 now s.last_short_release_ms) button_multi_click_ms)
      (λ continues.
        let same_count : s.click_count ≡ clicks = ground (arith, continues, h) in
        (
          down (u8 (s.click_count + 1)),
          subst
              (λ k.
                follow (up k) (
                  map kind
                    (emit index pressed now ∷ multi_click index (u8 (s.click_count + 1)) now))
                ≡ some (down (u8 (s.click_count + 1))))
              same_count
              (next_click s.click_count index now (λ e. ground (arith, continues, e))
                (omega (arith, same_count, few))),
          (on, refl, refl, omega (arith, same_count, few), refl),
        ))
      (λ _. (down 0, refl, (on, refl, refl, omega arith, refl)))

release-Follows :
    (count index : ℕ) (s : ButtonState) (now : ℕ)
    → s.long_press_emitted ≡ false
    → s.click_count ≡ count
    → count ≤ 3
    → s.triple_emitted ≡ (count == 3)
    → s.debounced_pressed ≡ false
    → Follows (down count) (on_released index s now)
unfolding on_released follow
release-Follows count index s now short e few ended off =
    (up (on_released index s now).0.click_count, ground arith, ground arith)

release_long-Follows :
    (index : ℕ) (s : ButtonState) (now : ℕ)
    → s.long_press_emitted ≡ true
    → s.debounced_pressed ≡ false
    → Follows held (on_released index s now)
unfolding on_released follow
release_long-Follows index s now long off = (up 0, ground arith, ground arith)

held-Follows :
    (phase : Phase) (index : ℕ) (s : ButtonState) (now : ℕ)
    → Shows phase s
    → s.debounced_pressed ≡ true
    → Follows phase (process_held index s now)
unfolding process_held follow
held-Follows (up clicks) index s now h on = ground (arith, on, h.0)
held-Follows (down count) index s now h on =
    both_when (Follows (down count))
      (not s.long_press_emitted && leb button_long_press_ms (sub32 now s.pressed_at_ms))
      (λ _. (held, refl, (on, refl)))
      (λ _.
        both_when (Follows (down count))
          (s.long_press_emitted && deadline_reached now s.next_repeat_ms)
          (λ repeats. ground (arith, repeats, h.1)) (λ _. (down count, refl, h)))
held-Follows held index s now h on =
    both_when (Follows held)
      (not s.long_press_emitted && leb button_long_press_ms (sub32 now s.pressed_at_ms))
      (λ first. ground (arith, first, h.1))
      (λ _.
        both (Follows held) (s.long_press_emitted && deadline_reached now s.next_repeat_ms)
          (held, refl, h) (held, refl, h))

-- The end of ProcessButton: a pressed button may have been held for long.
abbrev hold : ℕ → ℕ → ButtonState × List ButtonEvent → ButtonState × List ButtonEvent
hold index now result =
    if result.0.debounced_pressed
    then ((process_held index result.0 now).0, result.1 ++ (process_held index result.0 now).1)
    else result

follow-[] : (phase : Phase) → follow phase [] ≡ some phase
unfolding follow
follow-[] (up clicks) = refl
follow-[] (down count) = refl
follow-[] held = refl

-- The moment of a press is not yet a long one.
held-fresh :
    (index now : ℕ) (s : ButtonState)
    → s.long_press_emitted ≡ false
    → s.pressed_at_ms ≡ now
    → process_held index s now ≡ (s, [])
unfolding process_held
held-fresh index now s short now_pressed =
    both_when (λ after. after ≡ (s, []))
      (not s.long_press_emitted && leb button_long_press_ms (sub32 now s.pressed_at_ms))
      (λ first. ground (arith, first, now_pressed))
      (λ _.
        both_when (λ after. after ≡ (s, []))
          (s.long_press_emitted && deadline_reached now s.next_repeat_ms)
          (λ repeats. ground (arith, repeats, short)) (λ _. refl))

hold-fresh :
    (index now : ℕ) (result : ButtonState × List ButtonEvent)
    → result.0.debounced_pressed ≡ true
    → result.0.long_press_emitted ≡ false
    → result.0.pressed_at_ms ≡ now
    → hold index now result ≡ result
hold-fresh index now result on short now_pressed =
    both_when (λ after. after ≡ result) result.0.debounced_pressed
      (λ _.
        ap (λ after. (after.0, result.1 ++ after.1))
          (held-fresh index now result.0 short now_pressed)
        ∙ ap (λ events. (result.0, events)) (append-nil result.1))
      (λ _. refl)

on_pressed-fresh :
    (index : ℕ) (s : ButtonState) (now : ℕ)
    → ((on_pressed index s now).0.debounced_pressed ≡ s.debounced_pressed)
      × ((on_pressed index s now).0.long_press_emitted ≡ false)
      × ((on_pressed index s now).0.pressed_at_ms ≡ now)
unfolding on_pressed
on_pressed-fresh index s now = ground arith

on_released-up :
    (index : ℕ) (s : ButtonState) (now : ℕ)
    → (on_released index s now).0.debounced_pressed ≡ s.debounced_pressed
unfolding on_released
on_released-up index s now = ground arith

same-Follows :
    (phase : Phase) (index : ℕ) (s : ButtonState) (now : ℕ)
    → Shows phase s
    → Follows phase (hold index now (s, []))
same-Follows phase index s now h =
    both_when (Follows phase) s.debounced_pressed (held-Follows phase index s now h)
      (λ _. (phase, follow-[] phase, h))

released-Follows :
    (phase : Phase) (index : ℕ) (s : ButtonState) (now : ℕ)
    → Shows phase s
    → s.debounced_pressed ≡ true
    → Follows phase
        (on_released index (record s { debounced_pressed = false; candidate_samples = 0 }) now)
released-Follows (up clicks) index s now h on = ground (arith, h.0, on)
released-Follows (down count) index s now h on =
    release-Follows count index (record s { debounced_pressed = false; candidate_samples = 0 }) now
      h.1 h.2 h.3 h.4 refl
released-Follows held index s now h on =
    release_long-Follows index (record s { debounced_pressed = false; candidate_samples = 0 }) now
      h.1 refl

pressed-Follows :
    (phase : Phase) (index : ℕ) (s : ButtonState) (now : ℕ)
    → Shows phase s
    → s.debounced_pressed ≡ false
    → Follows phase
        (on_pressed index (record s { debounced_pressed = true; candidate_samples = 0 }) now)
pressed-Follows (up clicks) index s now h off =
    press-Follows clicks index (record s { debounced_pressed = true; candidate_samples = 0 }) now
      h.1 h.2 refl
pressed-Follows (down count) index s now h off = ground (arith, h.0, off)
pressed-Follows held index s now h off = ground (arith, h.0, off)

accept-Follows :
    (phase : Phase) (index : ℕ) (s : ButtonState) (raw : Bool) (now : ℕ)
    → Shows phase s
    → Follows phase (hold index now (accept_sample index s raw now))
unfolding accept_sample
accept-Follows phase index s true now h =
    let down_now = record s { debounced_pressed = true; candidate_samples = 0 } in
    let fresh = on_pressed-fresh index down_now now in
    both_when (λ result. Follows phase (hold index now result))
      (same true s.debounced_pressed || ltb s.candidate_samples 2) {a = (s, [])}
      {b = on_pressed index down_now now} (λ _. same-Follows phase index s now h)
      (λ changed.
        subst (Follows phase)
          (sym (hold-fresh index now (on_pressed index down_now now) fresh.0 fresh.1 fresh.2))
          (pressed-Follows phase index s now h (ground (arith, changed))))
accept-Follows phase index s false now h =
    let up_now = record s { debounced_pressed = false; candidate_samples = 0 } in
    both_when (λ result. Follows phase (hold index now result))
      (same false s.debounced_pressed || ltb s.candidate_samples 2) {a = (s, [])}
      {b = on_released index up_now now} (λ _. same-Follows phase index s now h)
      (λ changed.
        both_when (Follows phase) (on_released index up_now now).0.debounced_pressed
          (λ on. ground (arith, on, on_released-up index up_now now))
          (λ _. released-Follows phase index s now h (ground (arith, changed))))

process-Follows :
    (phase : Phase) (index : ℕ) (s : ButtonState) (raw : Bool) (now : ℕ)
    → Shows phase s
    → Follows phase (process_button index s raw now)
unfolding process_button
process-Follows phase index s raw now h =
    accept-Follows phase index (count_sample (forget_clicks s now) raw) raw now
      (count-Shows phase (forget_clicks s now) raw (forget-Shows phase s now h))

run-Follows :
    (phase : Phase) (index : ℕ) (s : ButtonState) (readings : List (Bool × ℕ))
    → Shows phase s
    → (last : Phase) × (follow_all phase (batches_of index s readings) ≡ some last)
      × Shows last (state_after index s readings)
unfolding batches_of state_after follow_all
run-Follows phase index s [] h = (phase, refl, h)
run-Follows phase index s (reading ∷ readings) h =
    let next = process_button index s reading.0 reading.1 in
    let one = process-Follows phase index s reading.0 reading.1 h in
    let rest = run-Follows one.0 index next.0 readings one.2 in
    (
      rest.0,
      ap (λ o. elim o [ none ↦ none | some p ↦ follow_all p (batches_of index next.0 readings) ])
            one.1
          ∙ rest.1,
      rest.2,
    )

-- Whatever is sampled and when, each sample of a button has only events that the protocol allows:
-- none; a press, with a double click only after exactly one click of the row and a triple click
-- only after two; a short release and its click, when no long press was told; the long press, once;
-- its repeats; and after a long press a release of its own kind, without a click. The phase of the
-- protocol that is reached shows the button: whether it is pressed, its long press has been told,
-- and the number of its click, up to clicks that were forgotten meanwhile.
pub batches_of-Follows :
    (index : ℕ) (readings : List (Bool × ℕ))
    → (last : Phase) × (follow_all (up 0) (batches_of index initial readings) ≡ some last)
      × Shows last (state_after index initial readings)
batches_of-Follows index readings =
    run-Follows (up 0) index initial readings (refl, inl refl, omega arith)
