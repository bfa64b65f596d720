-- ===== src/Ptyd/Pty.antt =====
-- `Pty` of ptyd/src/pty.rs: input translation, line editing, signals, and the read timers.
-- What the diagnostics print is not modelled; the calls of `kill` are a list of their arguments.
pub mod Input
pub mod Dispatch
pub mod Stream
use eos_base.Base.{
  ℕ, ◌+◌, ◌%◌, ◌^◌, Bool, true, false, ◌&&◌, Option, none, some, List, [], ◌∷◌, ◌++◌, ◌==◌, leb,
  if◌then◌else◌, length,
}
use eos_base.Base.Text.{Str}
use eos_base.Ptyd.Termios.{RedoxTermios, has}

-- `cooked` holds the bytes of the line being edited; a `VecDeque` is a list, its front first.
pub record Pty : Type 0 where
  pub id : ℕ
  pub pgrp : ℕ
  pub locked : Bool
  pub termios : Str
  pub winsize : Str
  pub cooked : Str
  pub miso : List Str
  pub mosi : List Str
  pub timeout_count : ℕ
  pub timeout_character : Option ℕ

abbrev pub is_empty {ℓ} : {A : Type ℓ} → List A → Bool
is_empty [] = true
is_empty (_ ∷ _) = false

abbrev pub cr : ℕ
cr = b'\r'

abbrev pub lf : ℕ
lf = b'\n'

-- `self.mosi.push_back(self.cooked.clone()); self.cooked.clear();`
abbrev pub flush : Pty → Pty
flush p = record p { mosi = p.mosi ++ (p.cooked ∷ []); cooked = [] }

-- The loop of `output`: a carriage return before each line feed.
unfoldable pub expand : Bool → Str → Str
expand post [] = []
expand post (b ∷ bs) =
    let rest = expand post bs in if post && b == lf then cr ∷ b ∷ rest else b ∷ rest

module _ (t : RedoxTermios) where
  pub new : ℕ → Pty
  new id = record {
    id = id;
    pgrp = 0;
    locked = true;
    termios = t.default_termios;
    winsize = t.default_winsize;
    cooked = [];
    miso = [];
    mosi = [];
    timeout_count = 0;
    timeout_character = none;
  }

  unfoldable pub output : Pty → Str → Pty
  output p buf =
      let ofl = t.c_oflag p.termios in
      let vec = 0 ∷ expand (has ofl t.opost && has ofl t.onlcr) buf in
      record p { miso = p.miso ++ (vec ∷ []) }

  -- `self.timeout_count >= timeout_character.wrapping_add(vtime)`
  abbrev pub expired : Pty → ℕ → Bool
  expired p since = leb ((since + t.c_cc p.termios t.vtime) % 2 ^ 64) p.timeout_count

  -- No minimum, with a timer: any data, or the timer.
  unfoldable pub update_timed : Pty → Option ℕ → Pty
  update_timed p none = record p { timeout_character = some p.timeout_count }
  update_timed p (some since) =
      if expired p since
      then (if is_empty p.mosi
          then flush (record p { timeout_character = none })
          else record p { timeout_character = none })
      else p

  -- A minimum and a timer, with some data that is less than the minimum.
  unfoldable pub update_partial : Pty → Option ℕ → Pty
  update_partial p none = p
  update_partial p (some since) =
      if expired p since then flush (record p { timeout_character = none }) else p

  unfoldable pub update : Pty → Pty
  unfolding update_timed update_partial
  update p =
      let vmin = t.c_cc p.termios t.vmin in
      let vtime = t.c_cc p.termios t.vtime in
      if has (t.c_lflag p.termios) t.icanon
      then p
      else if vtime == 0
      then (if vmin == 0
          then (if is_empty p.mosi then flush p else p)
          else if leb vmin (length p.cooked)
          then flush p
          else p)
      else if vmin == 0
      then (if is_empty p.cooked then update_timed p p.timeout_character else flush p)
      else if leb vmin (length p.cooked)
      then flush p
      else if is_empty p.cooked
      then p
      else update_partial p p.timeout_character

  pub timeout : Pty → ℕ → Pty
  timeout p count =
      if p.timeout_count == count then p else update (record p { timeout_count = count })
