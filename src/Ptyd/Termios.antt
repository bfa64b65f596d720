-- ===== src/Ptyd/Termios.antt =====
-- The terminal settings of the `redox_termios` crate, which is not part of the repository. A
-- `Termios` and a `Winsize` dereference to their bytes, so a value is its list of bytes; the
-- fields, the flags, the defaults and the indices of the control characters are parameters.
use eos_base.Base.{ℕ, Bool, bit_and, ◌==◌}
use eos_base.Base.Text.{Str}

pub record RedoxTermios : Type 0 where
  pub default_termios : Str
  pub default_winsize : Str
  pub c_iflag : Str → ℕ
  pub c_oflag : Str → ℕ
  pub c_lflag : Str → ℕ
  pub c_cc : Str → ℕ → ℕ
  pub inlcr : ℕ
  pub igncr : ℕ
  pub icrnl : ℕ
  pub ixon : ℕ
  pub opost : ℕ
  pub onlcr : ℕ
  pub echo : ℕ
  pub echoe : ℕ
  pub echonl : ℕ
  pub icanon : ℕ
  pub isig : ℕ
  pub iexten : ℕ
  pub veof : ℕ
  pub veol : ℕ
  pub veol2 : ℕ
  pub verase : ℕ
  pub vwerase : ℕ
  pub vkill : ℕ
  pub vreprint : ℕ
  pub vintr : ℕ
  pub vquit : ℕ
  pub vsusp : ℕ
  pub vstart : ℕ
  pub vstop : ℕ
  pub vlnext : ℕ
  pub vdiscard : ℕ
  pub vmin : ℕ
  pub vtime : ℕ

-- `flags & FLAG == FLAG`
abbrev pub has : ℕ → ℕ → Bool
has flags flag = bit_and flags flag == flag
