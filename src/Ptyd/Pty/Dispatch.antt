-- ===== src/Ptyd/Pty/Dispatch.antt =====
-- The row of stages of `Pty::input` against one choice: a byte is handled by the first rule that
-- fits it, and by no other.
pub mod Stages
use eos_base.Base.{
  ℕ, ◌≡◌, refl, ◌∙◌, ap, Bool, true, false, ◌&&◌, ◌||◌, some, List, [], ◌∷◌, ◌++◌, ◌==◌, arith,
  if◌then◌else◌, Bool-cases, inl, inr,
}
use eos_base.Ptyd.Termios.{RedoxTermios}
use eos_base.Ptyd.Pty.{Pty, flush, lf}
use eos_base.Ptyd.Pty.Input.{
  Kill, Signal, sigint, sigquit, sigtstp, Line, translate, canonical, signals, signal, flow,
  swallow, store, input_byte, is_cc, lflag, newline, end_of_file, end_of_line, erase_char, erase,
  commit, echo_if, neg_usize, stage,
}
use eos_base.Ptyd.Pty.Dispatch.Stages.{
  zero_swallow, zero_end_of_file, zero_erase_char, zero_signal, zero_store, Passes, Passes-compose,
  Passes-stage, out, out_pass, Passes-flow, misc, eol, Passes-misc, Passes-eol, newline_lem,
  eol_lem, erase_char_lem, misc_lem, signal_lem, flow_lem,
}

-- A signal goes to the process group, if there is one.
abbrev pub killed : Pty → List Kill → Signal → Pty × List Kill
killed p kills s = (p, if p.pgrp == 0 then kills else kills ++ ((neg_usize p.pgrp, s) ∷ []))

module _ (t : RedoxTermios) where
  -- The rules, the first that fits first.
  pub dispatch : Pty → List Kill → ℕ → Pty × List Kill
  dispatch p kills b =
      let on = λ (flag : ℕ). lflag t p flag in
      let cc = λ (i : ℕ). is_cc t p b i in
      if on t.icanon && b == lf
      then (commit (echo_if t (on t.echo || on t.echonl) p b) b, kills)
      else if on t.icanon && cc t.veof
      then (flush p, kills)
      else if on t.icanon && (cc t.veol || cc t.veol2)
      then (commit (echo_if t (on t.echo) p b) b, kills)
      else if on t.icanon && cc t.verase
      then (erase t p, kills)
      else if on t.icanon && (cc t.vkill || (on t.iexten && (cc t.vwerase || cc t.vreprint)))
      then (p, kills)
      else if on t.isig && cc t.vintr
      then killed p kills sigint
      else if on t.isig && cc t.vquit
      then killed p kills sigquit
      else if on t.isig && cc t.vsusp
      then killed p kills sigtstp
      else if on t.ixon && (cc t.vstart || cc t.vstop)
      then (p, kills)
      else if on t.iexten && (cc t.vlnext || cc t.vdiscard)
      then (p, kills)
      else if b == 0
      then (p, kills)
      else (let q = echo_if t (on t.echo) p b in
          (
            record q { timeout_character = some q.timeout_count; cooked = q.cooked ++ (b ∷ []) },
            kills,
          ))

  -- The row from each stage to its end.
  module _ (icanon isig ixon iexten : Bool) where
    abbrev g_last : Line → Line
    g_last l = store t (swallow t iexten t.vdiscard (swallow t iexten t.vlnext l))

    abbrev g_flow : Line → Line
    g_flow l = g_last (stage ixon (flow t) l)

    abbrev g_susp : Line → Line
    g_susp l = g_flow (stage isig (signal t t.vsusp sigtstp) l)

    abbrev g_quit : Line → Line
    g_quit l = g_susp (stage isig (signal t t.vquit sigquit) l)

    abbrev g_intr : Line → Line
    g_intr l = g_quit (stage isig (signal t t.vintr sigint) l)

    abbrev g_misc : Line → Line
    g_misc l = g_intr (stage icanon (misc t iexten) l)

    abbrev g_erase : Line → Line
    g_erase l = g_misc (stage icanon (erase_char t) l)

    abbrev g_eol : Line → Line
    g_eol l = g_erase (stage icanon (eol t) l)

    abbrev g_eof : Line → Line
    g_eof l = g_eol (stage icanon (end_of_file t) l)

    abbrev g_all : Line → Line
    g_all l = g_eof (stage icanon (newline t) l)

    p_last : Passes g_last
    p_last l h =
        rw (zero_swallow t iexten t.vlnext l h, zero_swallow t iexten t.vdiscard l h)
          (zero_store t l h)

    p_flow : Passes g_flow
    p_flow =
        Passes-compose (stage ixon (flow t)) g_last (Passes-stage ixon (flow t) (Passes-flow t))
          p_last

    p_susp : Passes g_susp
    p_susp =
        Passes-compose (stage isig (signal t t.vsusp sigtstp)) g_flow
          (Passes-stage isig (signal t t.vsusp sigtstp) (zero_signal t t.vsusp sigtstp)) p_flow

    p_quit : Passes g_quit
    p_quit =
        Passes-compose (stage isig (signal t t.vquit sigquit)) g_susp
          (Passes-stage isig (signal t t.vquit sigquit) (zero_signal t t.vquit sigquit)) p_susp

    p_intr : Passes g_intr
    p_intr =
        Passes-compose (stage isig (signal t t.vintr sigint)) g_quit
          (Passes-stage isig (signal t t.vintr sigint) (zero_signal t t.vintr sigint)) p_quit

    p_misc : Passes g_misc
    p_misc =
        Passes-compose (stage icanon (misc t iexten)) g_intr
          (Passes-stage icanon (misc t iexten) (Passes-misc t iexten)) p_intr

    p_erase : Passes g_erase
    p_erase =
        Passes-compose (stage icanon (erase_char t)) g_misc
          (Passes-stage icanon (erase_char t) (zero_erase_char t)) p_misc

    p_eol : Passes g_eol
    p_eol =
        Passes-compose (stage icanon (eol t)) g_erase (Passes-stage icanon (eol t) (Passes-eol t))
          p_erase

    p_eof : Passes g_eof
    p_eof =
        Passes-compose (stage icanon (end_of_file t)) g_eol
          (Passes-stage icanon (end_of_file t) (zero_end_of_file t)) p_eol

if_else {ℓ} :
    {A : Type ℓ} (c : Bool) (x : A) {y z : A} → y ≡ z → (if c then x else y) ≡ (if c then x else z)
if_else true x e = refl
if_else false x e = e

module _ (t : RedoxTermios) (p : Pty) (kills : List Kill) (b : ℕ) where
  abbrev l : Line
  l = record { pty = p; b = b; kills = kills }

  abbrev done : Pty → Line
  done q = record { pty = q; b = 0; kills = kills }

  abbrev sent : Signal → Line
  sent s = record { pty = p; b = 0; kills = (killed p kills s).1 }

  abbrev on : ℕ → Bool
  on flag = lflag t p flag

  abbrev cc : ℕ → Bool
  cc i = is_cc t p b i

  last_lem : out (g_last t (on t.icanon) (on t.isig) (on t.ixon) (on t.iexten) l) ≡ (
      if on t.iexten && (cc t.vlnext || cc t.vdiscard)
      then (p, kills)
      else if b == 0
      then (p, kills)
      else (let q = echo_if t (on t.echo) p b in
          (
            record q { timeout_character = some q.timeout_count; cooked = q.cooked ++ (b ∷ []) },
            kills,
          )))
  unfolding swallow store
  last_lem = ground arith

  row-dispatch :
      out (g_all t (on t.icanon) (on t.isig) (on t.ixon) (on t.iexten) l) ≡ dispatch t p kills b
  unfolding dispatch
  row-dispatch =
      let A = on t.icanon in
      let S = on t.isig in
      let X = on t.ixon in
      let E = on t.iexten in
      out_pass (newline t) (g_eof t A S X E) A (b == lf)
        (done (commit (echo_if t (on t.echo || on t.echonl) p b) b)) l (newline_lem t l)
        (p_eof t A S X E) refl
      ∙ if_else (A && b == lf) (out (done (commit (echo_if t (on t.echo || on t.echonl) p b) b))) (
          out_pass (end_of_file t) (g_eol t A S X E) A (cc t.veof) (done (flush p)) l
            (unfold end_of_file in refl) (p_eol t A S X E) refl
          ∙ if_else (A && cc t.veof) (out (done (flush p))) (
              out_pass (eol t) (g_erase t A S X E) A (cc t.veol || cc t.veol2)
                (done (commit (echo_if t (on t.echo) p b) b)) l (eol_lem t l) (p_erase t A S X E)
                refl
              ∙ if_else (A && (cc t.veol || cc t.veol2))
                  (out (done (commit (echo_if t (on t.echo) p b) b)))
                  (out_pass (erase_char t) (g_misc t A S X E) A (cc t.verase) (done (erase t p)) l
                      (erase_char_lem t l) (p_misc t A S X E) refl
                    ∙ if_else (A && cc t.verase) (out (done (erase t p))) (
                        out_pass (misc t E) (g_intr t A S X E) A
                          (cc t.vkill || (E && (cc t.vwerase || cc t.vreprint))) (done p) l
                          (misc_lem t E l) (p_intr t A S X E) refl
                        ∙ if_else (A && (cc t.vkill || (E && (cc t.vwerase || cc t.vreprint))))
                            (out (done p))
                            (out_pass (signal t t.vintr sigint) (g_quit t A S X E) S (cc t.vintr)
                                (sent sigint) l (signal_lem t t.vintr sigint l) (p_quit t A S X E)
                                refl
                              ∙ if_else (S && cc t.vintr) (out (sent sigint)) (
                                  out_pass (signal t t.vquit sigquit) (g_susp t A S X E) S
                                    (cc t.vquit) (sent sigquit) l (signal_lem t t.vquit sigquit l)
                                    (p_susp t A S X E) refl
                                  ∙ if_else (S && cc t.vquit) (out (sent sigquit)) (
                                      out_pass (signal t t.vsusp sigtstp) (g_flow t A S X E) S
                                        (cc t.vsusp) (sent sigtstp) l
                                        (signal_lem t t.vsusp sigtstp l) (p_flow t A S X E) refl
                                      ∙ if_else (S && cc t.vsusp) (out (sent sigtstp)) (
                                          out_pass (flow t) (g_last t A S X E) X
                                            (cc t.vstart || cc t.vstop) (done p) l (flow_lem t l)
                                            (p_last t A S X E) refl
                                          ∙ if_else (X && (cc t.vstart || cc t.vstop))
                                              (out (done p)) last_lem))))))))

stage-canonical :
    (t : RedoxTermios) (on : Bool) (l : Line)
    → stage on (canonical t) l
      ≡ stage on (misc t (lflag t l.pty t.iexten)) (
          stage on
            (erase_char t)
            (stage on (eol t) (stage on (end_of_file t) (stage on (newline t) l))))
unfolding canonical
stage-canonical t true l = refl
stage-canonical t false l = refl

stage-signals :
    (t : RedoxTermios) (on : Bool) (l : Line)
    → stage on (signals t) l
      ≡ stage on
          (signal t t.vsusp sigtstp)
          (stage on (signal t t.vquit sigquit) (stage on (signal t t.vintr sigint) l))
unfolding signals
stage-signals t true l = refl
stage-signals t false l = refl

-- Each byte of the input, after translation, is handled by the first rule that fits it: the end of a
-- line, the end of the file, an erased character, a control character that is only taken out, a
-- signal to the process group, flow control, or a byte of the line. Nothing else happens to the
-- terminal, and no other signal is sent.
pub input_byte-dispatch :
    (t : RedoxTermios) (p : Pty) (kills : List Kill) (byte : ℕ)
    → let l = input_byte t p kills byte in
      (l.pty, l.kills) ≡ dispatch t p kills (translate t p byte)
unfolding input_byte
input_byte-dispatch t p kills byte =
    rw (stage-signals, stage-canonical) (row-dispatch t p kills (translate t p byte))
