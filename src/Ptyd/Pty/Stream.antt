-- ===== src/Ptyd/Pty/Stream.antt =====
-- No byte is lost or reordered between the line discipline and the reader: the bytes to be read are
-- those of the queue, then those of the line being edited.
use eos_base.Base.{
  Bool-cases, inl, inr, ℕ, ◌≡◌, refl, sym, ap, ◌∙◌, false, List, [], ◌∷◌, ◌++◌, arith, ◌==◌,
  if◌then◌else◌, append-nil, append_assoc,
}
use eos_base.Base.Text.{Str}
use eos_base.Ptyd.Termios.{RedoxTermios, has}
use eos_base.Ptyd.Pty.{Pty, update, update_timed, update_partial}
use eos_base.Ptyd.Pty.Input.{
  Kill, Line, translate, swallow, store, input_byte, input_loop, input, lflag,
}

unfoldable pub concat : List Str → Str
concat [] = []
concat (s ∷ ss) = s ++ concat ss

abbrev pub stream : Pty → Str
stream p = concat p.mosi ++ p.cooked

concat-append : (ss ts : List Str) → concat (ss ++ ts) ≡ concat ss ++ concat ts
unfolding concat
concat-append [] ts = refl
concat-append (s ∷ ss) ts = rw (concat-append ss ts) (sym (append_assoc s (concat ss) (concat ts)))

concat-snoc : (ss : List Str) (s : Str) → concat (ss ++ (s ∷ [])) ++ [] ≡ concat ss ++ s
unfolding concat
concat-snoc ss s = simp (concat-append, append-nil)

module _ (t : RedoxTermios) where
  update_timed-stream : (p : Pty) → stream (update_timed t p p.timeout_character) ≡ stream p
  unfolding update_timed
  update_timed-stream p = ground (arith, concat-snoc p.mosi p.cooked)

  update_partial-stream : (p : Pty) → stream (update_partial t p p.timeout_character) ≡ stream p
  unfolding update_partial
  update_partial-stream p = ground (arith, concat-snoc p.mosi p.cooked)

  -- `update` moves bytes from the line to the queue, in every mode and whatever the timers say, and
  -- loses none.
  pub update-stream : (p : Pty) → stream (update t p) ≡ stream p
  unfolding update
  update-stream p =
      ground (arith, concat-snoc p.mosi p.cooked, update_timed-stream p, update_partial-stream p)

  -- A terminal whose settings leave bytes alone.
  pub record IsRaw (p : Pty) : Type 0 where
    pub no_icanon : lflag t p t.icanon ≡ false
    pub no_isig : lflag t p t.isig ≡ false
    pub no_ixon : lflag t p t.ixon ≡ false
    pub no_iexten : lflag t p t.iexten ≡ false
    pub no_echo : lflag t p t.echo ≡ false
    pub no_inlcr : has (t.c_iflag p.termios) t.inlcr ≡ false
    pub no_igncr : has (t.c_iflag p.termios) t.igncr ≡ false
    pub no_icrnl : has (t.c_iflag p.termios) t.icrnl ≡ false

  -- A string without its zero bytes.
  pub nonzero : Str → Str
  nonzero [] = []
  nonzero (b ∷ s) = if b == 0 then nonzero s else b ∷ nonzero s

  swallow_off : (i : ℕ) (l : Line) → swallow t false i l ≡ l
  unfolding swallow
  swallow_off i l = ground arith

  raw_translate : (p : Pty) (b : ℕ) → IsRaw p → translate t p b ≡ b
  unfolding translate
  raw_translate p b raw = ground arith

  raw_step :
      (p : Pty) (kills : List Kill) (b : ℕ)
      → IsRaw p
      → input_byte t p kills b ≡ store t (record { pty = p; b = b; kills = kills })
  unfolding input_byte
  raw_step p kills b raw = rw (
    raw.no_icanon,
    raw.no_isig,
    raw.no_ixon,
    raw.no_iexten,
    raw_translate p b raw,
    swallow_off t.vdiscard,
    swallow_off t.vlnext,
  )

  store_raw :
      (p : Pty) (kills : List Kill) (b : ℕ)
      → IsRaw p
      → let l = store t (record { pty = p; b = b; kills = kills }) in
        (stream l.pty ≡ stream p ++ nonzero (b ∷ []))
        × (l.pty.termios ≡ p.termios)
        × (l.kills ≡ kills)
  unfolding store nonzero
  store_raw p kills b raw = elim (Bool-cases (b == 0)) [
    | inl z ↦ rw z (sym (append-nil (stream p)), refl, refl)
    | inr nz ↦
        rw (nz, raw.no_echo) (sym (append_assoc (concat p.mosi) p.cooked (b ∷ [])), refl, refl)
  ]

  nonzero-cons : (b : ℕ) (s : Str) → nonzero (b ∷ s) ≡ nonzero (b ∷ []) ++ nonzero s
  unfolding nonzero
  nonzero-cons b s = ground arith

  IsRaw-termios : (p q : Pty) → q.termios ≡ p.termios → IsRaw p → IsRaw q
  IsRaw-termios p q e raw = record {
    no_icanon = rw e raw.no_icanon;
    no_isig = rw e raw.no_isig;
    no_ixon = rw e raw.no_ixon;
    no_iexten = rw e raw.no_iexten;
    no_echo = rw e raw.no_echo;
    no_inlcr = rw e raw.no_inlcr;
    no_igncr = rw e raw.no_igncr;
    no_icrnl = rw e raw.no_icrnl;
  }

  input_byte-raw :
      (p : Pty) (kills : List Kill) (b : ℕ)
      → IsRaw p
      → let l = input_byte t p kills b in
        (stream l.pty ≡ stream p ++ nonzero (b ∷ []))
        × (l.pty.termios ≡ p.termios)
        × (l.kills ≡ kills)
  input_byte-raw p kills b raw = rw (raw_step p kills b raw) (store_raw p kills b raw)

  input_loop-raw :
      (p : Pty) (kills : List Kill) (buf : Str)
      → IsRaw p
      → (stream (input_loop t p kills buf).0 ≡ stream p ++ nonzero buf)
        × ((input_loop t p kills buf).1 ≡ kills)
  unfolding input_loop
  input_loop-raw p kills [] raw = unfold nonzero in (sym (append-nil (stream p)), refl)
  input_loop-raw p kills (b ∷ buf) raw =
      let l = input_byte t p kills b in
      let now = input_byte-raw p kills b raw in
      let rest = input_loop-raw l.pty l.kills buf (IsRaw-termios p l.pty now.1 raw) in
      (
        rest.0
            ∙ ap (λ x. x ++ nonzero buf) now.0
            ∙ append_assoc (stream p) (nonzero (b ∷ [])) (nonzero buf)
            ∙ ap (λ x. stream p ++ x) (sym (nonzero-cons b buf)),
        rest.1 ∙ now.2,
      )

  -- On a terminal whose settings leave bytes alone, the bytes that a write adds to what there is to
  -- read are the bytes written but for the zero bytes, and no signal is sent.
  pub input-raw :
      (p : Pty) (buf : Str)
      → IsRaw p
      → (stream (input t p buf).0 ≡ stream p ++ nonzero buf) × ((input t p buf).1 ≡ [])
  unfolding input
  input-raw p buf raw =
      let (same, quiet) = input_loop-raw p [] buf raw in
      (update-stream (input_loop t p [] buf).0 ∙ same, quiet)
