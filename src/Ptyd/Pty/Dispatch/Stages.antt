-- ===== src/Ptyd/Pty/Dispatch/Stages.antt =====
-- The stages of `Pty::input`, each by itself: what it does to a byte, and that it passes on a byte
-- that has been handled.
use eos_base.Base.{
  ℕ, ◌≡◌, refl, ◌∙◌, ap, Bool, true, false, ◌&&◌, ◌||◌, List, [], ◌∷◌, ◌++◌, ◌==◌, arith,
  if◌then◌else◌, Bool-cases, inl, inr,
}
use eos_base.Ptyd.Termios.{RedoxTermios}
use eos_base.Ptyd.Pty.{Pty, lf}
use eos_base.Ptyd.Pty.Input.{
  Kill, Signal, Line, signal, flow, swallow, store, is_cc, lflag, newline, end_of_file, end_of_line,
  erase_char, erase, commit, echo_if, neg_usize, stage,
}

module _ (t : RedoxTermios) where
  pub zero_swallow : (on : Bool) (i : ℕ) (l : Line) → l.b ≡ 0 → swallow t on i l ≡ l
  unfolding swallow
  zero_swallow on i l h = ground arith

  zero_end_of_line : (i : ℕ) (l : Line) → l.b ≡ 0 → end_of_line t i l ≡ l
  unfolding end_of_line
  zero_end_of_line i l h = ground arith

  pub zero_end_of_file : (l : Line) → l.b ≡ 0 → end_of_file t l ≡ l
  unfolding end_of_file
  zero_end_of_file l h = ground arith

  pub zero_erase_char : (l : Line) → l.b ≡ 0 → erase_char t l ≡ l
  unfolding erase_char
  zero_erase_char l h = ground arith

  pub zero_signal : (i : ℕ) (s : Signal) (l : Line) → l.b ≡ 0 → signal t i s l ≡ l
  unfolding signal
  zero_signal i s l h = ground arith

  zero_newline : (l : Line) → l.b ≡ 0 → newline t l ≡ l
  unfolding newline
  zero_newline l h = ground arith

  pub zero_store : (l : Line) → l.b ≡ 0 → store t l ≡ l
  unfolding store
  zero_store l h = ground arith

-- A part of the row that passes on what has been handled.
abbrev pub Passes : (Line → Line) → Type 0
Passes g = (l : Line) → l.b ≡ 0 → g l ≡ l

pub Passes-compose : (f g : Line → Line) → Passes f → Passes g → Passes (λ l. g (f l))
Passes-compose f g pf pg l h = ap g (pf l h) ∙ pg l h

pub Passes-stage : (on : Bool) (f : Line → Line) → Passes f → Passes (stage on f)
Passes-stage true f pf l h = pf l h
Passes-stage false f pf l h = refl

-- Behind a stage that handles the byte, nothing happens; else the row goes on.
pass :
    (g : Line → Line) (c : Bool) (h l : Line)
    → Passes g
    → h.b ≡ 0
    → g (if c then h else l) ≡ (if c then h else g l)
pass g true h l pg z = pg h z
pass g false h l pg z = refl

abbrev pub out : Line → Pty × List Kill
out l = (l.pty, l.kills)

pub out_pass :
    (f g : Line → Line) (on c : Bool) (h l : Line)
    → f l ≡ (if c then h else l)
    → Passes g
    → h.b ≡ 0
    → out (g (stage on f l)) ≡ (if on && c then out h else out (g l))
out_pass f g false c h l e pg z = refl
out_pass f g true true h l e pg z = ap (λ x. out (g x)) e ∙ ap out (pg h z)
out_pass f g true false h l e pg z = ap (λ x. out (g x)) e

module _ (t : RedoxTermios) where
  pub Passes-flow : Passes (flow t)
  unfolding flow
  Passes-flow l h = rw (zero_swallow t true t.vstart l h) (zero_swallow t true t.vstop l h)

  abbrev pub misc : Bool → Line → Line
  misc iexten l =
      swallow t iexten t.vreprint (swallow t true t.vkill (swallow t iexten t.vwerase l))

  abbrev pub eol : Line → Line
  eol l = end_of_line t t.veol2 (end_of_line t t.veol l)

  pub Passes-misc : (iexten : Bool) → Passes (misc iexten)
  Passes-misc iexten l h =
      rw (zero_swallow t iexten t.vwerase l h, zero_swallow t true t.vkill l h)
        (zero_swallow t iexten t.vreprint l h)

  pub Passes-eol : Passes eol
  Passes-eol l h = rw (zero_end_of_line t t.veol l h) (zero_end_of_line t t.veol2 l h)

  -- What each stage does by itself.
  pub newline_lem :
      (l : Line)
      → newline t l ≡ (
          if l.b == lf
          then record l {
            pty = commit (echo_if t (lflag t l.pty t.echo || lflag t l.pty t.echonl) l.pty l.b) l.b;
            b = 0;
          }
          else l)
  unfolding newline
  newline_lem l = refl

  end_of_line_on :
      (i : ℕ) (l : Line)
      → is_cc t l.pty l.b i ≡ true
      → end_of_line t i l
        ≡ record l { pty = commit (echo_if t (lflag t l.pty t.echo) l.pty l.b) l.b; b = 0 }
  unfolding end_of_line
  end_of_line_on i l c = rw c

  end_of_line_off : (i : ℕ) (l : Line) → is_cc t l.pty l.b i ≡ false → end_of_line t i l ≡ l
  unfolding end_of_line
  end_of_line_off i l c = rw c

  pub eol_lem :
      (l : Line)
      → eol l ≡ (
          if is_cc t l.pty l.b t.veol || is_cc t l.pty l.b t.veol2
          then record l { pty = commit (echo_if t (lflag t l.pty t.echo) l.pty l.b) l.b; b = 0 }
          else l)
  eol_lem l = elim (Bool-cases (is_cc t l.pty l.b t.veol)) [
    | inl c ↦ rw (end_of_line_on t.veol l c, c) (zero_end_of_line t t.veol2 _ refl)
    | inr n ↦ rw (end_of_line_off t.veol l n, n) (unfold end_of_line in refl)
  ]

  pub erase_char_lem :
      (l : Line)
      → erase_char t l
        ≡ (if is_cc t l.pty l.b t.verase then record l { pty = erase t l.pty; b = 0 } else l)
  unfolding erase_char
  erase_char_lem l = ground arith

  pub misc_lem :
      (iexten : Bool) (l : Line)
      → misc iexten l ≡ (
          if is_cc t l.pty l.b t.vkill
            || (iexten && (is_cc t l.pty l.b t.vwerase || is_cc t l.pty l.b t.vreprint))
          then record l { b = 0 }
          else l)
  unfolding swallow
  misc_lem iexten l = ground arith

  pub signal_lem :
      (i : ℕ) (s : Signal) (l : Line)
      → signal t i s l ≡ (
          if is_cc t l.pty l.b i
          then record l {
            b = 0;
            kills =
                if l.pty.pgrp == 0 then l.kills else l.kills ++ ((neg_usize l.pty.pgrp, s) ∷ []);
          }
          else l)
  unfolding signal
  signal_lem i s l = ground arith

  pub flow_lem :
      (l : Line)
      → flow t l ≡ (
          if is_cc t l.pty l.b t.vstart || is_cc t l.pty l.b t.vstop then record l { b = 0 } else l)
  unfolding flow swallow
  flow_lem l = ground arith
