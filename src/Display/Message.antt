-- ===== src/Display/Message.antt =====
-- source/drivers/MicroBitDisplay.cpp: `printAsync` of a text, tick by tick.
use microbit_dal.Prelude.{ℕ, zero, suc, List, [], ◌++◌, leb, if◌then◌else◌}
use microbit_dal.Prelude.Bytes.{Bytes}
use microbit_dal.Image.{Image}
use microbit_dal.Image.Glyph.{print}
use microbit_dal.Display.{
  AnimationMode, Display, DisplayEvent, char_at, update_print_text, animation_update,
}

module _ (memcpy : Bytes → ℕ → ℕ → ℕ → Bytes) (font : Bytes) (ascii_end period : ℕ) where
  -- `n` ticks of the system timer.
  abbrev pub ticks : ℕ → Display → Display × List DisplayEvent
  ticks zero d = (d, [])
  ticks (suc n) d =
      let (d', es) = animation_update memcpy font ascii_end period d in
      let (d'', fs) = ticks n d' in (d'', es ++ fs)

  -- A display that prints the text of `d`, with its clock at `t`.
  abbrev printing : Display → ℕ → Display
  printing d t = record d { animation_mode = AnimationMode.print_text; animation_tick = t }

  -- What one tick does, by the clock behind it.
  abbrev ticked : Display → ℕ → Display × List DisplayEvent
  ticked d t =
      if leb d.animation_delay t
      then update_print_text memcpy font ascii_end period (printing d 0)
      else (printing d t, [])

  -- The image behind `k` frames.
  abbrev image_after : List ℕ → Image → ℕ → Image
  image_after text im zero = im
  image_after text im (suc k) =
      (print font ascii_end (char_at text k) 0 0 (image_after text im k)).0

  abbrev state : Display → ℕ → Display
  state d k = record d { printing_char = k; image = image_after d.printing_text d.image k }

  -- The display that a call of `printAsync` leaves.
  abbrev begun : List ℕ → ℕ → Display → Display
  begun text delay d = record d { printing_text = text; animation_delay = delay }
