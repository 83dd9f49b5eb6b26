-- ===== src/Domain/Button.antt =====
-- button_controller.cc: debouncing and the events of the two buttons. The events are returned in
-- the order in which they are pushed to the queue of the controller.
pub mod Protocol
mod Tests
use mentor_pi_ros.Prelude.{
  ℕ, ◌+◌, Bool, true, false, ◌&&◌, ◌||◌, not, List, [], ◌∷◌, ◌++◌, ltb, leb, ◌==◌, ◌!=◌, same,
  if◌then◌else◌, u8, add32, sub32, is_nonneg32,
}

pub data ButtonEventType : Type 0 where
  pressed long_press long_press_repeat release_from_long_press release_from_short_press click
        double_click triple_click :
      ButtonEventType

pub record ButtonEvent : Type 0 where
  pub timestamp_ms : ℕ
  pub button_id : ℕ
  pub event : ButtonEventType

abbrev pub button_long_press_ms : ℕ
button_long_press_ms = 1500

abbrev pub button_long_repeat_ms : ℕ
button_long_repeat_ms = 400

abbrev pub button_multi_click_ms : ℕ
button_multi_click_ms = 300

pub record ButtonState : Type 0 where
  pub debounced_pressed : Bool
  pub candidate_pressed : Bool
  pub candidate_samples : ℕ
  pub long_press_emitted : Bool
  pub triple_emitted : Bool
  pub click_count : ℕ
  pub pressed_at_ms : ℕ
  pub next_repeat_ms : ℕ
  pub last_short_release_ms : ℕ

abbrev pub initial : ButtonState
initial = record {
  debounced_pressed = false;
  candidate_pressed = false;
  candidate_samples = 0;
  long_press_emitted = false;
  triple_emitted = false;
  click_count = 0;
  pressed_at_ms = 0;
  next_repeat_ms = 0;
  last_short_release_ms = 0;
}

-- `DeadlineReached`.
abbrev pub deadline_reached : ℕ → ℕ → Bool
deadline_reached now_ms deadline_ms = is_nonneg32 (sub32 now_ms deadline_ms)

-- `Emit`, at the index of a button.
abbrev pub emit : ℕ → ButtonEventType → ℕ → ButtonEvent
emit index event now_ms = record {
  timestamp_ms = now_ms;
  button_id = u8 (index + 1);
  event = event;
}

-- The events of a second and a third click.
unfoldable pub multi_click : ℕ → ℕ → ℕ → List ButtonEvent
multi_click index count now_ms =
    if count == 2
    then emit index double_click now_ms ∷ []
    else if count == 3
    then emit index triple_click now_ms ∷ []
    else []

-- `OnPressed`.
unfoldable pub on_pressed : ℕ → ButtonState → ℕ → ButtonState × List ButtonEvent
on_pressed index s now_ms =
    let start = record s {
      pressed_at_ms = now_ms;
      long_press_emitted = false;
      triple_emitted = false;
    } in
    let count = u8 (s.click_count + 1) in
    if s.click_count != 0 && leb (sub32 now_ms s.last_short_release_ms) button_multi_click_ms
    then (
      record start { click_count = count; triple_emitted = count == 3 },
      emit index pressed now_ms ∷ multi_click index count now_ms,
    )
    else (record start { click_count = 0 }, emit index pressed now_ms ∷ [])

-- `OnReleased`.
unfoldable pub on_released : ℕ → ButtonState → ℕ → ButtonState × List ButtonEvent
on_released index s now_ms =
    if s.long_press_emitted
    then (
      record s { click_count = 0; triple_emitted = false },
      emit index release_from_long_press now_ms ∷ [],
    )
    else (
      record s {
        click_count =
            if s.triple_emitted then 0 else if s.click_count == 0 then 1 else s.click_count;
        triple_emitted = false;
        last_short_release_ms = now_ms;
      },
      emit index release_from_short_press now_ms ∷ emit index click now_ms ∷ [],
    )

-- `ProcessHeld`.
unfoldable pub process_held : ℕ → ButtonState → ℕ → ButtonState × List ButtonEvent
process_held index s now_ms =
    if not s.long_press_emitted && leb button_long_press_ms (sub32 now_ms s.pressed_at_ms)
    then (
      record s {
        long_press_emitted = true;
        click_count = 0;
        triple_emitted = false;
        next_repeat_ms = add32 (add32 s.pressed_at_ms button_long_press_ms) button_long_repeat_ms;
      },
      emit index long_press now_ms ∷ [],
    )
    else if s.long_press_emitted && deadline_reached now_ms s.next_repeat_ms
    then (
      record s { next_repeat_ms = add32 s.next_repeat_ms button_long_repeat_ms },
      emit index long_press_repeat now_ms ∷ [],
    )
    else (s, [])

-- The clicks of a released button are forgotten after a while.
unfoldable pub forget_clicks : ButtonState → ℕ → ButtonState
forget_clicks s now_ms =
    if not s.debounced_pressed
      && s.click_count != 0
      && ltb button_multi_click_ms (sub32 now_ms s.last_short_release_ms)
    then record s { click_count = 0; triple_emitted = false }
    else s

-- The counting of samples that differ from the debounced state.
unfoldable pub count_sample : ButtonState → Bool → ButtonState
count_sample s raw_pressed =
    if same raw_pressed s.debounced_pressed
    then record s { candidate_samples = 0 }
    else if not (same raw_pressed s.candidate_pressed)
    then record s { candidate_pressed = raw_pressed; candidate_samples = 1 }
    else if ltb s.candidate_samples 2
    then record s { candidate_samples = s.candidate_samples + 1 }
    else s

-- The change of the debounced state after two samples.
unfoldable pub accept_sample : ℕ → ButtonState → Bool → ℕ → ButtonState × List ButtonEvent
accept_sample index s raw_pressed now_ms =
    let changed = record s { debounced_pressed = raw_pressed; candidate_samples = 0 } in
    if same raw_pressed s.debounced_pressed || ltb s.candidate_samples 2
    then (s, [])
    else if raw_pressed
    then on_pressed index changed now_ms
    else on_released index changed now_ms

-- `ProcessButton`.
unfoldable pub process_button : ℕ → ButtonState → Bool → ℕ → ButtonState × List ButtonEvent
process_button index s raw_pressed now_ms =
    let counted = count_sample (forget_clicks s now_ms) raw_pressed in
    let accepted = accept_sample index counted raw_pressed now_ms in
    let held = process_held index accepted.0 now_ms in
    if accepted.0.debounced_pressed then (held.0, accepted.1 ++ held.1) else accepted

-- `Sample`, on the two buttons.
unfoldable pub sample :
    ButtonState × ButtonState → Bool × Bool → ℕ → (ButtonState × ButtonState) × List ButtonEvent
sample buttons raw_pressed now_ms =
    let first = process_button 0 buttons.0 raw_pressed.0 now_ms in
    let second = process_button 1 buttons.1 raw_pressed.1 now_ms in
    ((first.0, second.0), first.1 ++ second.1)
