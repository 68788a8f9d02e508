-- ===== src/Display.antt =====
-- source/drivers/MicroBitDisplay.cpp: the animations of the display, and the operations that start and
-- stop them. The font and the period of the system timer are parameters; the strobing of the matrix is
-- in Render.
pub mod Render
pub mod Protocol
pub mod Message
mod Tests
use microbit_dal.Prelude.{
  ℕ, zero, suc, ◌+◌, ◌-◌, ◌*◌, ◌%◌, ◌^◌, ◌≡◌, Bool, true, false, not, ◌&&◌, ◌||◌, Option, none,
  some, List, [], ◌∷◌, ltb, leb, ◌==◌, if◌then◌else◌, length, ◌/◌, ◌≤◌, ◌<◌, refl, sym, ap, subst,
  ◌∙◌, ◌≢◌, ◌↔◌, ◌⊎◌, inl, inr, ◌++◌, map, append-nil, append_assoc, arith, ltb→lt, lt→ltb, leb→le,
  ==_iff, Bool-cases, Option-cases,
}
use microbit_dal.Prelude.Int.{is_zero, ℤ, pos, negsuc, ◌+ℤ◌, ◌-ℤ◌, ltb_ℤ, leb_ℤ}
use microbit_dal.Prelude.Bytes.{Bytes}
use microbit_dal.Image.{Image, clear_image, shift_left, paste, nat_of}
use microbit_dal.Image.Glyph.{print}

pub data AnimationMode : Type 0 where
  no_animation stopped scroll_text print_text scroll_image animate_image animate_image_with_clear
        print_character :
      AnimationMode

pub data DisplayMode : Type 0 where
  black_and_white greyscale black_and_white_light_sense : DisplayMode

pub data Rotation : Type 0 where
  rotation_0 rotation_90 rotation_180 rotation_270 : Rotation

pub data Status : Type 0 where
  ok invalid_parameter busy cancelled : Status

-- The events: MICROBIT_DISPLAY_EVT_ANIMATION_COMPLETE, MICROBIT_DISPLAY_EVT_FREE to one fiber and to
-- all, MICROBIT_DISPLAY_EVT_LIGHT_SENSE.
pub data DisplayEvent : Type 0 where
  animation_complete free_one free_all light_sense : DisplayEvent

pub record Display : Type 0 where
  pub width : ℕ
  pub height : ℕ
  pub brightness : ℕ
  pub strobe_row : ℕ
  pub rotation : Rotation
  pub mode : DisplayMode
  pub running : Bool
  pub image : Image
  pub animation_mode : AnimationMode
  pub animation_delay : ℕ
  pub animation_tick : ℕ
  pub scrolling_text : List ℕ
  pub scrolling_char : ℕ
  pub scrolling_position : ℕ
  pub printing_text : List ℕ
  pub printing_char : ℕ
  pub scrolling_image : Image
  pub scrolling_image_position : ℤ
  pub scrolling_image_stride : ℤ
  pub scrolling_image_rendered : Bool

-- MICROBIT_DISPLAY_SPACING, MICROBIT_DISPLAY_WIDTH
abbrev pub spacing : ℕ
spacing = 1

abbrev pub display_width : ℕ
display_width = 5

-- `ANIMATION_MODE_NONE || ANIMATION_MODE_STOPPED`
abbrev pub is_free : AnimationMode → Bool
is_free no_animation = true
is_free stopped = true
is_free scroll_text = false
is_free print_text = false
is_free scroll_image = false
is_free animate_image = false
is_free animate_image_with_clear = false
is_free print_character = false

-- The character at a place of a text; a space behind its end.
abbrev pub char_at : List ℕ → ℕ → ℕ
char_at [] i = 32
char_at (c ∷ cs) zero = c
char_at (c ∷ cs) (suc i) = char_at cs i

-- `sendAnimationCompleteEvent`, and the mode that is set before it.
pub complete : Display → Display × List DisplayEvent
complete d = (record d { animation_mode = no_animation }, animation_complete ∷ free_one ∷ [])

-- `updateScrollImage`
pub update_scroll_image : Display → Display × List DisplayEvent
unfolding complete
update_scroll_image d =
    let (pasted, n) =
      paste d.scrolling_image d.scrolling_image_position (pos 0) false (clear_image d.image) in
    let shown = record d { image = pasted } in
    if (n == 0 && d.scrolling_image_rendered) || is_zero d.scrolling_image_stride
    then complete shown
    else (
      record shown {
        scrolling_image_position = d.scrolling_image_position +ℤ d.scrolling_image_stride;
        scrolling_image_rendered = true;
      },
      [],
    )

abbrev pub clears : AnimationMode → Bool
clears animate_image_with_clear = true
clears no_animation = false
clears stopped = false
clears scroll_text = false
clears print_text = false
clears scroll_image = false
clears animate_image = false
clears print_character = false

-- `updateAnimateImage`
pub update_animate_image : (Bytes → ℕ → ℕ → ℕ → Bytes) → Display → Display × List DisplayEvent
unfolding complete
update_animate_image memcpy d =
    let position = d.scrolling_image_position in
    let stride = d.scrolling_image_stride in
    let last = (pos display_width +ℤ stride) -ℤ pos d.scrolling_image.width in
    let shifted =
      if ltb_ℤ (pos 0) position then (shift_left memcpy (pos 0 -ℤ stride) d.image).0 else d.image in
    let shown = record d {
      image = (paste d.scrolling_image position (pos 0) false shifted).0;
      scrolling_image_rendered = true;
      scrolling_image_position = position +ℤ stride;
    } in
    if leb_ℤ position last && d.scrolling_image_rendered
    then complete (if clears d.animation_mode then record d { image = clear_image d.image } else d)
    else if is_zero stride
    then complete shown
    else (shown, [])

module _ (memcpy : Bytes → ℕ → ℕ → ℕ → Bytes) (font : Bytes) (ascii_end period : ℕ) where
  -- `updateScrollText`
  pub update_scroll_text : Display → Display × List DisplayEvent
  unfolding complete
  update_scroll_text d =
      let shifted = (shift_left memcpy (pos 1) d.image).0 in
      let position = (d.scrolling_position + 1) % 256 in
      let c = char_at d.scrolling_text d.scrolling_char in
      let shown = record d {
        image = (print font ascii_end c d.width 0 shifted).0;
        scrolling_position = 0;
      } in
      if position == d.width + spacing
      then if ltb (length d.scrolling_text) d.scrolling_char
        then complete shown
        else (record shown { scrolling_char = (d.scrolling_char + 1) % 2 ^ 16 }, [])
      else (record d { image = shifted; scrolling_position = position }, [])

  -- `updatePrintText`
  pub update_print_text : Display → Display × List DisplayEvent
  unfolding complete
  update_print_text d =
      let c = char_at d.printing_text d.printing_char in
      let shown = record d { image = (print font ascii_end c 0 0 d.image).0 } in
      if ltb (length d.printing_text) d.printing_char
      then complete shown
      else (record shown { printing_char = (d.printing_char + 1) % 2 ^ 16 }, [])

  -- The update that `animationUpdate` calls when the delay is over.
  pub update_frame : AnimationMode → Display → Display × List DisplayEvent
  unfolding update_scroll_text update_print_text update_scroll_image update_animate_image complete
  update_frame no_animation d = (d, [])
  update_frame stopped d = (d, [])
  update_frame scroll_text d = update_scroll_text d
  update_frame print_text d = update_print_text d
  update_frame scroll_image d = update_scroll_image d
  update_frame animate_image d = update_animate_image memcpy d
  update_frame animate_image_with_clear d = update_animate_image memcpy d
  update_frame print_character d = complete d

  -- `animationUpdate` of an animation, which may be one that is stopped.
  pub advance : Display → Display × List DisplayEvent
  unfolding update_frame
  advance d =
      let tick = (d.animation_tick + period) % 2 ^ 16 in
      if leb d.animation_delay tick
      then update_frame d.animation_mode (record d { animation_tick = 0 })
      else (record d { animation_tick = tick }, [])

  pub animation_update : Display → Display × List DisplayEvent
  unfolding advance
  animation_update d = elim d.animation_mode [ no_animation ↦ (d, []) | _ ↦ advance d ]

  -- `printCharAsync`
  pub print_char_async : ℕ → ℤ → Display → Display × Status
  print_char_async c delay d =
      let shown = record d { image = (print font ascii_end c 0 0 d.image).0 } in
      let timed = record shown {
        animation_delay = nat_of delay % 2 ^ 16;
        animation_tick = 0;
        animation_mode = print_character;
      } in
      if ltb_ℤ delay (pos 0)
      then (d, invalid_parameter)
      else if is_free d.animation_mode
      then (if ltb_ℤ (pos 0) delay then timed else shown, ok)
      else (d, busy)

  -- `printAsync` of a text
  pub print_async : List ℕ → ℤ → Display → Display × Status
  unfolding print_char_async
  print_async text delay d =
      let started = record d {
        printing_char = 0;
        printing_text = text;
        animation_delay = nat_of delay % 2 ^ 16;
        animation_tick = 0;
        animation_mode = print_text;
      } in
      if length text == 1
      then print_char_async (char_at text 0) (pos 0) d
      else if leb_ℤ delay (pos 0)
      then (d, invalid_parameter)
      else if is_free d.animation_mode
      then (started, ok)
      else (d, busy)

-- `printAsync` of an image
pub print_image_async : Image → ℤ → ℤ → Bool → ℤ → Display → Display × Status
print_image_async i x y alpha delay d =
    let shown = record d { image = (paste i x y alpha d.image).0 } in
    let timed = record shown {
      animation_delay = nat_of delay % 2 ^ 16;
      animation_tick = 0;
      animation_mode = print_character;
    } in
    if ltb_ℤ delay (pos 0)
    then (d, invalid_parameter)
    else if is_free d.animation_mode
    then (if ltb_ℤ (pos 0) delay then timed else shown, ok)
    else (d, busy)

-- `scrollAsync` of a text
pub scroll_async : List ℕ → ℤ → Display → Display × Status
scroll_async text delay d =
    let started = record d {
      scrolling_position = d.width - 1;
      scrolling_char = 0;
      scrolling_text = text;
      animation_delay = nat_of delay % 2 ^ 16;
      animation_tick = 0;
      animation_mode = scroll_text;
    } in
    if leb_ℤ delay (pos 0)
    then (d, invalid_parameter)
    else if is_free d.animation_mode
    then (started, ok)
    else (d, busy)

-- `scrollAsync` of an image; the stride is an `int8_t`.
pub scroll_image_async : Image → ℤ → ℤ → Display → Display × Status
scroll_image_async image delay stride d =
    let started = record d {
      scrolling_image_position =
          if ltb_ℤ stride (pos 0) then pos d.width else pos 0 -ℤ pos image.width;
      scrolling_image_stride = stride;
      scrolling_image = image;
      scrolling_image_rendered = false;
      animation_delay = if is_zero stride then 0 else nat_of delay % 2 ^ 16;
      animation_tick = 0;
      animation_mode = scroll_image;
    } in
    if leb_ℤ delay (pos 0)
    then (d, invalid_parameter)
    else if is_free d.animation_mode
    then (started, ok)
    else (d, busy)

-- `animateAsync`; `none` is MICROBIT_DISPLAY_ANIMATE_DEFAULT_POS.
pub animate_async : Image → ℤ → ℤ → Option ℤ → Bool → Display → Display × Status
animate_async image delay step start auto_clear d =
    let stride = pos 0 -ℤ step in
    let started = record d {
      scrolling_image_position = elim start [
        | none ↦ pos display_width +ℤ stride
        | some position ↦ position
      ];
      scrolling_image_stride = stride;
      scrolling_image = image;
      scrolling_image_rendered = false;
      animation_delay = if is_zero stride then 0 else nat_of delay % 2 ^ 16;
      animation_tick = (nat_of delay - 1) % 2 ^ 16;
      animation_mode = if auto_clear then animate_image_with_clear else animate_image;
    } in
    if leb_ℤ delay (pos 0)
    then (d, invalid_parameter)
    else if is_free d.animation_mode
    then (started, ok)
    else (d, busy)

-- `stopAnimation`
pub stop_animation : Display → Display × List DisplayEvent
stop_animation d =
    let cleared = record d { image = clear_image d.image } in
    elim d.animation_mode [
      | no_animation ↦ (cleared, [])
      | _ ↦ (record cleared { animation_mode = no_animation }, animation_complete ∷ free_all ∷ [])
    ]

-- `printChar`, `print`, `scroll` and `animate` behind `waitForFreeDisplay`: `start` is the call of
-- the asynchronous operation, and the display is the one that the fiber finds when it goes on.
pub when_free : (Display → Display × Status) → Display → Display × Status
when_free start d = elim d.animation_mode [ no_animation ↦ ((start d).0, ok) | _ ↦ (d, cancelled) ]

pub set_brightness : ℤ → Display → Display × Status
set_brightness b d =
    if ltb_ℤ b (pos 0) || ltb_ℤ (pos 255) b
    then (d, invalid_parameter)
    else (record d { brightness = nat_of b }, ok)

pub rotate_to : Rotation → Display → Display
rotate_to r d = record d { rotation = r }

pub set_display_mode : DisplayMode → Display → Display
set_display_mode m d = record d { mode = m }

pub set_enable : Bool → Display → Display
set_enable b d = record d { running = b }
