-- ===== src/Session/Window.antt =====
-- The `replayWindow` of session/session.go: the highest accepted counter and a bitmap of the 32
-- counters below it, as uint32 values.
pub mod Log
pub mod Refinement
pub mod Replay
use go_matter.Base.{
  ℕ, ◌+◌, ◌-◌, ◌*◌, ◌%◌, ◌^◌, Bool, ltb, leb, ◌==◌, ◌||◌, not, if◌then◌else◌, bit_and, bit_or,
  Result, ok, err, ◌>>=◌,
}

pub data Error : Type 0 where
  replayed_message_counter : Error

pub record ReplayWindow : Type 0 where
  pub max : ℕ
  pub bitmap : ℕ

abbrev pub message_counter_window_size : ℕ
message_counter_window_size = 32

abbrev pub empty_window : ReplayWindow
empty_window = record { max = 0; bitmap = 0 }

-- The commit of a counter above the maximum; `shift` was computed by `check`.
abbrev pub advance : ℕ → ℕ → ReplayWindow → ReplayWindow
advance c shift w = record {
  max = c;
  bitmap =
      if leb 32 shift then 0 else bit_or (w.bitmap * 2 ^ shift % 2 ^ 32) (2 ^ (shift - 1) % 2 ^ 32);
}

-- `replayWindow.check`: the closure that commits the counter, or an error.
unfoldable pub check : ReplayWindow → ℕ → Result Error (ReplayWindow → ReplayWindow)
check w c =
    if w.max == 0
    then ok (λ v. record v { max = c })
    else if ltb w.max c
    then ok (advance c (c - w.max))
    else if c == w.max || ltb message_counter_window_size (w.max - c)
    then err replayed_message_counter
    else (let bit = 2 ^ (w.max - c - 1) % 2 ^ 32 in
        if not (bit_and w.bitmap bit == 0)
        then err replayed_message_counter
        else ok (λ v. record v { bitmap = bit_or v.bitmap bit }))

-- `check`, and the commit at once: what a frame that passes authentication does.
unfoldable pub accept : ReplayWindow → ℕ → Result Error ReplayWindow
unfolding check
accept w c = do commit ← check w c; ok (commit w)
