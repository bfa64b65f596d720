-- ===== src/Ptyd/Pty/Input.antt =====
-- `Pty::input` of ptyd/src/pty.rs. The loop's body is a row of stages over the byte `b`, which a
-- stage that handles it sets to 0.
use eos_base.Base.{
  ℕ, ◌-◌, ◌%◌, ◌^◌, Bool, true, ◌&&◌, ◌||◌, not, some, List, [], ◌∷◌, ◌++◌, ◌==◌, if◌then◌else◌,
}
use eos_base.Base.Text.{Str}
use eos_base.Ptyd.Termios.{RedoxTermios, has}
use eos_base.Ptyd.Pty.{Pty, flush, output, update, cr, lf, is_empty}

pub data Signal : Type 0 where
  sigint sigquit sigtstp : Signal

-- The arguments of a call of `kill`.
abbrev pub Kill : Type 0
Kill = ℕ × Signal

-- The variables of the loop's body, and the calls of `kill` so far.
pub record Line : Type 0 where
  pub pty : Pty
  pub b : ℕ
  pub kills : List Kill

-- `Vec::pop` without its result.
unfoldable pub drop_last : Str → Str
drop_last [] = []
drop_last (x ∷ []) = []
drop_last (x ∷ y ∷ xs) = x ∷ drop_last (y ∷ xs)

-- A byte that ends the line is part of it.
abbrev pub commit : Pty → ℕ → Pty
commit p b = flush (record p { cooked = p.cooked ++ (b ∷ []) })

-- `-(self.pgrp as isize) as usize`
abbrev pub neg_usize : ℕ → ℕ
neg_usize n = (2 ^ 64 - n) % 2 ^ 64

abbrev pub stage : Bool → (Line → Line) → Line → Line
stage on f l = if on then f l else l

module _ (t : RedoxTermios) where
  abbrev pub lflag : Pty → ℕ → Bool
  lflag p flag = has (t.c_lflag p.termios) flag

  abbrev pub is_cc : Pty → ℕ → ℕ → Bool
  is_cc p b i = not (b == 0) && b == t.c_cc p.termios i

  abbrev pub is_vdisable : Pty → ℕ → Bool
  is_vdisable p i = t.c_cc p.termios i == 0

  abbrev pub echo_if : Bool → Pty → ℕ → Pty
  echo_if on p b = if on then output t p (b ∷ []) else p

  -- Input translation.
  unfoldable pub translate : Pty → ℕ → ℕ
  translate p b =
      let iflag = λ (flag : ℕ). has (t.c_iflag p.termios) flag in
      if b == lf
      then (if iflag t.inlcr then cr else b)
      else if b == cr
      then (if iflag t.igncr then 0 else if iflag t.icrnl then lf else b)
      else b

  unfoldable pub newline : Line → Line
  newline l =
      if l.b == lf
      then record l {
        pty = commit (echo_if (lflag l.pty t.echo || lflag l.pty t.echonl) l.pty l.b) l.b;
        b = 0;
      }
      else l

  unfoldable pub end_of_file : Line → Line
  end_of_file l = if is_cc l.pty l.b t.veof then record l { pty = flush l.pty; b = 0 } else l

  unfoldable pub end_of_line : ℕ → Line → Line
  end_of_line i l =
      if is_cc l.pty l.b i
      then record l { pty = commit (echo_if (lflag l.pty t.echo) l.pty l.b) l.b; b = 0 }
      else l

  unfoldable pub erase : Pty → Pty
  unfolding drop_last
  erase p =
      if is_empty p.cooked
      then p
      else if lflag p t.echoe
      then output t (record p { cooked = drop_last p.cooked }) (8 ∷ b' ' ∷ 8 ∷ [])
      else record p { cooked = drop_last p.cooked }

  unfoldable pub erase_char : Line → Line
  erase_char l =
      if is_cc l.pty l.b t.verase && not (is_vdisable l.pty t.verase)
      then record l { pty = erase l.pty; b = 0 }
      else l

  -- The stages that only print a diagnostic.
  unfoldable pub swallow : Bool → ℕ → Line → Line
  swallow on i l = if is_cc l.pty l.b i && on then record l { b = 0 } else l

  unfoldable pub canonical : Line → Line
  canonical l =
      let iexten = lflag l.pty t.iexten in
      swallow iexten t.vreprint (
        swallow true t.vkill (
          swallow iexten t.vwerase
            (erase_char (end_of_line t.veol2 (end_of_line t.veol (end_of_file (newline l)))))))

  unfoldable pub signal : ℕ → Signal → Line → Line
  signal i s l =
      if is_cc l.pty l.b i && not (is_vdisable l.pty i)
      then record l {
        b = 0;
        kills = if l.pty.pgrp == 0 then l.kills else l.kills ++ ((neg_usize l.pty.pgrp, s) ∷ []);
      }
      else l

  unfoldable pub signals : Line → Line
  signals l = signal t.vsusp sigtstp (signal t.vquit sigquit (signal t.vintr sigint l))

  unfoldable pub flow : Line → Line
  flow l = swallow true t.vstop (swallow true t.vstart l)

  -- What no stage has handled joins the line.
  unfoldable pub store : Line → Line
  store l =
      if l.b == 0
      then l
      else (let p = echo_if (lflag l.pty t.echo) l.pty l.b in
          record l {
            pty = record p {
              timeout_character = some p.timeout_count;
              cooked = p.cooked ++ (l.b ∷ []);
            };
          })

  unfoldable pub input_byte : Pty → List Kill → ℕ → Line
  input_byte p kills byte =
      let start : Line = record { pty = p; b = translate p byte; kills = kills } in
      let iexten = lflag p t.iexten in
      store (
        swallow iexten t.vdiscard (
          swallow iexten t.vlnext (
            stage (lflag p t.ixon) flow
              (stage (lflag p t.isig) signals (stage (lflag p t.icanon) canonical start)))))

  unfoldable pub input_loop : Pty → List Kill → Str → Pty × List Kill
  input_loop p kills [] = (p, kills)
  input_loop p kills (byte ∷ buf) = let l = input_byte p kills byte in input_loop l.pty l.kills buf

  unfoldable pub input : Pty → Str → Pty × List Kill
  unfolding input_loop
  input p buf = let (p', kills) = input_loop p [] buf in (update t p', kills)
