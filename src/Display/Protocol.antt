-- ===== src/Display/Protocol.antt =====
-- Animations that start and animations that end, over runs of the display.
use microbit_dal.Prelude.{
  ℕ, suc, ◌+◌, ◌≤◌, ◌≡◌, refl, ap, ◌∙◌, ◌⊎◌, inl, inr, Bool, true, false, not, ◌&&◌, Option, List,
  [], ◌∷◌, ◌==◌, if◌then◌else◌, length, if-both, arith,
}
use microbit_dal.Prelude.Int.{ℤ, pos, ltb_ℤ}
use microbit_dal.Prelude.Bytes.{Bytes}
use microbit_dal.Image.{Image}
use microbit_dal.Display.{
  clear_image, AnimationMode, Display, DisplayEvent, Status, is_free, complete, update_scroll_text,
  update_print_text, update_scroll_image, update_animate_image, update_frame, advance,
  animation_update, print_char_async, print_async, print_image_async, scroll_async,
  scroll_image_async, animate_async, stop_animation,
}

-- What can happen to the display: the timer, a call of an operation, and `stopAnimation`.
pub data Step : Type 0 where
  tick : Step
  print_char_step : ℕ → ℤ → Step
  print_text_step : List ℕ → ℤ → Step
  print_image_step : Image → ℤ → ℤ → Bool → ℤ → Step
  scroll_text_step : List ℕ → ℤ → Step
  scroll_image_step : Image → ℤ → ℤ → Step
  animate_step : Image → ℤ → ℤ → Option ℤ → Bool → Step
  stop : Step

abbrev pub is_ok : Status → Bool
is_ok Status.ok = true
is_ok Status.invalid_parameter = false
is_ok Status.busy = false
is_ok Status.cancelled = false

-- Whether a call that returned a status has started an animation: characters and images are shown
-- for good where the delay is 0, and so is a text of one character.
abbrev pub starts : Step → Status → ℕ
starts Step.tick r = 0
starts (Step.print_char_step c delay) r = if is_ok r && ltb_ℤ (pos 0) delay then 1 else 0
starts (Step.print_text_step text delay) r = if is_ok r && not (length text == 1) then 1 else 0
starts (Step.print_image_step i x y alpha delay) r = if is_ok r && ltb_ℤ (pos 0) delay then 1 else 0
starts (Step.scroll_text_step text delay) r = if is_ok r then 1 else 0
starts (Step.scroll_image_step image delay stride) r = if is_ok r then 1 else 0
starts (Step.animate_step image delay stride start auto) r = if is_ok r then 1 else 0
starts Step.stop r = 0

-- The number of the events that tell that an animation is complete.
abbrev pub completions : List DisplayEvent → ℕ
completions [] = 0
completions (DisplayEvent.animation_complete ∷ es) = suc (completions es)
completions (DisplayEvent.free_one ∷ es) = completions es
completions (DisplayEvent.free_all ∷ es) = completions es
completions (DisplayEvent.light_sense ∷ es) = completions es

-- One while an animation is running.
abbrev pub active : AnimationMode → ℕ
active m = if is_free m then 0 else 1

-- No operation sets the mode that the comments call stopped.
abbrev pub is_stopped : AnimationMode → Bool
is_stopped AnimationMode.stopped = true
is_stopped AnimationMode.no_animation = false
is_stopped AnimationMode.scroll_text = false
is_stopped AnimationMode.print_text = false
is_stopped AnimationMode.scroll_image = false
is_stopped AnimationMode.animate_image = false
is_stopped AnimationMode.animate_image_with_clear = false
is_stopped AnimationMode.print_character = false

module _ (memcpy : Bytes → ℕ → ℕ → ℕ → Bytes) (font : Bytes) (ascii_end period : ℕ) where
  abbrev pub step : Step → Display → Display × Status × List DisplayEvent
  step Step.tick d =
      let (d', es) = animation_update memcpy font ascii_end period d in (d', Status.ok, es)
  step (Step.print_char_step c delay) d =
      let (d', r) = print_char_async memcpy font ascii_end period c delay d in (d', r, [])
  step (Step.print_text_step text delay) d =
      let (d', r) = print_async memcpy font ascii_end period text delay d in (d', r, [])
  step (Step.print_image_step i x y alpha delay) d =
      let (d', r) = print_image_async i x y alpha delay d in (d', r, [])
  step (Step.scroll_text_step text delay) d = let (d', r) = scroll_async text delay d in (d', r, [])
  step (Step.scroll_image_step image delay stride) d =
      let (d', r) = scroll_image_async image delay stride d in (d', r, [])
  step (Step.animate_step image delay stride start auto) d =
      let (d', r) = animate_async image delay stride start auto d in (d', r, [])
  step Step.stop d = let (d', es) = stop_animation d in (d', Status.ok, es)

  -- A run: the display, how many animations were started, and how many completions were told.
  abbrev pub run : List Step → Display → Display × ℕ × ℕ
  run [] d = (d, 0, 0)
  run (s ∷ ss) d =
      let (d', r, es) = step s d in
      let (d'', started, ended) = run ss d' in (d'', starts s r + started, completions es + ended)

-- The outcome of an update of an animation in mode `m`: it goes on, or it ends and says so.
abbrev Frame : AnimationMode → Display × List DisplayEvent → Type 0
Frame m (d, es) =
    ((d.animation_mode ≡ m) × (es ≡ []))
    ⊎ ((active m ≡ 1)
        × (d.animation_mode ≡ AnimationMode.no_animation)
        × (es ≡ DisplayEvent.animation_complete ∷ DisplayEvent.free_one ∷ []))

update_scroll_image-Frame :
    (d : Display) → active d.animation_mode ≡ 1 → Frame d.animation_mode (update_scroll_image d)
unfolding update_scroll_image complete
update_scroll_image-Frame d h =
    if-both (Frame d.animation_mode) _ (inr (h, refl, refl)) (inl (refl, refl))

update_animate_image-Frame :
    (memcpy : Bytes → ℕ → ℕ → ℕ → Bytes) (d : Display)
    → active d.animation_mode ≡ 1
    → Frame d.animation_mode (update_animate_image memcpy d)
unfolding update_animate_image complete
update_animate_image-Frame memcpy d h = ground arith

-- The effect of a step: the animations that ran and that it starts are those that it ends and that
-- run behind it.
abbrev Counts : ℕ → Display → Display × List DisplayEvent → Type 0
Counts k d (d', es) =
    (is_stopped d'.animation_mode ≡ false)
    × (active d.animation_mode + k ≡ completions es + active d'.animation_mode)

Frame-Counts :
    (d : Display) (r : Display × List DisplayEvent)
    → is_stopped d.animation_mode ≡ false
    → Frame d.animation_mode r
    → Counts 0 d r
Frame-Counts d (d', es) h (inl (m, e)) =
    let same : completions es ≡ 0 = ap completions e in
    (ap is_stopped m ∙ h, omega (arith, ap active m))
Frame-Counts d (d', es) h (inr (on, m, e)) =
    let one : completions es ≡ 1 = ap completions e in (ap is_stopped m, omega (arith, ap active m))

module _ (memcpy : Bytes → ℕ → ℕ → ℕ → Bytes) (font : Bytes) (ascii_end period : ℕ) where
  update_scroll_text-Frame :
      (d : Display)
      → active d.animation_mode ≡ 1
      → Frame d.animation_mode (update_scroll_text memcpy font ascii_end period d)
  unfolding update_scroll_text complete
  update_scroll_text-Frame d h = ground arith

  update_print_text-Frame :
      (d : Display)
      → active d.animation_mode ≡ 1
      → Frame d.animation_mode (update_print_text memcpy font ascii_end period d)
  unfolding update_print_text complete
  update_print_text-Frame d h =
      if-both (Frame d.animation_mode) _ (inr (h, refl, refl)) (inl (refl, refl))

  update_frame-Frame :
      (m : AnimationMode) (d : Display)
      → d.animation_mode ≡ m
      → Frame d.animation_mode (update_frame memcpy font ascii_end period m d)
  unfolding update_frame complete
  update_frame-Frame AnimationMode.no_animation d e = inl (refl, refl)
  update_frame-Frame AnimationMode.stopped d e = inl (refl, refl)
  update_frame-Frame AnimationMode.scroll_text d e = update_scroll_text-Frame d (ap active e)
  update_frame-Frame AnimationMode.print_text d e = update_print_text-Frame d (ap active e)
  update_frame-Frame AnimationMode.scroll_image d e = update_scroll_image-Frame d (ap active e)
  update_frame-Frame AnimationMode.animate_image d e =
      update_animate_image-Frame memcpy d (ap active e)
  update_frame-Frame AnimationMode.animate_image_with_clear d e =
      update_animate_image-Frame memcpy d (ap active e)
  update_frame-Frame AnimationMode.print_character d e = inr (ap active e, refl, refl)

  advance-Frame : (d : Display) → Frame d.animation_mode (advance memcpy font ascii_end period d)
  unfolding advance
  advance-Frame d =
      if-both (Frame d.animation_mode) _
        (update_frame-Frame d.animation_mode (record d { animation_tick = 0 }) refl)
        (inl (refl, refl))

  update_case :
      (m : AnimationMode) (d : Display)
      → Frame d.animation_mode (elim m [
        | AnimationMode.no_animation ↦ (d, [])
        | _ ↦ advance memcpy font ascii_end period d
      ])
  update_case AnimationMode.no_animation d = inl (refl, refl)
  update_case AnimationMode.stopped d = advance-Frame d
  update_case AnimationMode.scroll_text d = advance-Frame d
  update_case AnimationMode.print_text d = advance-Frame d
  update_case AnimationMode.scroll_image d = advance-Frame d
  update_case AnimationMode.animate_image d = advance-Frame d
  update_case AnimationMode.animate_image_with_clear d = advance-Frame d
  update_case AnimationMode.print_character d = advance-Frame d

stop_case :
    (m : AnimationMode) (d cleared : Display)
    → d.animation_mode ≡ m
    → cleared.animation_mode ≡ m
    → is_stopped m ≡ false
    → Counts 0 d (elim m [
      | AnimationMode.no_animation ↦ (cleared, [])
      | _ ↦ (
        record cleared { animation_mode = AnimationMode.no_animation },
        DisplayEvent.animation_complete ∷ DisplayEvent.free_all ∷ [],
      )
    ])
stop_case AnimationMode.no_animation d cleared e f h =
    (ap is_stopped f, omega (arith, ap active e, ap active f))
stop_case AnimationMode.stopped d cleared e f h = cc
stop_case AnimationMode.scroll_text d cleared e f h = (refl, omega (arith, ap active e))
stop_case AnimationMode.print_text d cleared e f h = (refl, omega (arith, ap active e))
stop_case AnimationMode.scroll_image d cleared e f h = (refl, omega (arith, ap active e))
stop_case AnimationMode.animate_image d cleared e f h = (refl, omega (arith, ap active e))
stop_case AnimationMode.animate_image_with_clear d cleared e f h =
    (refl, omega (arith, ap active e))
stop_case AnimationMode.print_character d cleared e f h = (refl, omega (arith, ap active e))

module _ (memcpy : Bytes → ℕ → ℕ → ℕ → Bytes) (font : Bytes) (ascii_end period : ℕ) where
  step-Counts :
      (s : Step) (d : Display)
      → is_stopped d.animation_mode ≡ false
      → let (d', r, es) = step memcpy font ascii_end period s d in Counts (starts s r) d (d', es)
  unfolding animation_update print_char_async print_async print_image_async scroll_async
      scroll_image_async animate_async stop_animation
  step-Counts Step.tick d h =
      Frame-Counts d (animation_update memcpy font ascii_end period d) h
        (update_case memcpy font ascii_end period d.animation_mode d)
  step-Counts (Step.print_char_step c delay) d h = ground arith
  step-Counts (Step.print_text_step text delay) d h = ground arith
  step-Counts (Step.print_image_step i x y alpha delay) d h = ground arith
  step-Counts (Step.scroll_text_step text delay) d h = ground arith
  step-Counts (Step.scroll_image_step image delay stride) d h = ground arith
  step-Counts (Step.animate_step image delay stride start auto) d h = ground arith
  step-Counts Step.stop d h =
      stop_case d.animation_mode d (record d { image = clear_image d.image }) refl refl h

  -- In every run, of the timer, of calls that start an animation or are refused, and of
  -- `stopAnimation`, from a display whose mode is not the one called stopped: the animations that ran
  -- at the start and those that were started are as many as those that were told to be complete and
  -- those that run at the end, of which there is at most one. So each animation is completed once.
  pub run_counts :
      (ss : List Step) (d : Display)
      → is_stopped d.animation_mode ≡ false
      → let (d', started, ended) = run memcpy font ascii_end period ss d in
        (active d.animation_mode + started ≡ ended + active d'.animation_mode)
        × (active d'.animation_mode ≤ 1)
  run_counts [] d h =
      (omega arith, if-both (λ n. n ≤ 1) (is_free d.animation_mode) (omega arith) (omega arith))
  run_counts (s ∷ ss) d h =
      let (live, here) = step-Counts s d h in
      let d' = (step memcpy font ascii_end period s d).0 in
      let (later, one) = run_counts ss d' live in (omega arith, one)
