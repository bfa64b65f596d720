-- ===== src/SchemeUtils/FpathWriter/Laws.antt =====
-- The writer against plain concatenation: the buffer gets the front of the whole text, as much as
-- fits, and the rest of the buffer stays.
use eos_base.Base.{
  ℕ, zero, suc, ◌+◌, ◌-◌, min, ◌≡◌, refl, List, [], ◌∷◌, ◌++◌, arith, length, take, drop,
  length-append, append_assoc, append-nil, ap, sym, ◌∙◌,
}
use eos_base.Base.Text.{Str}
use eos_base.Base.Result.{ok}
use eos_base.SchemeUtils.FpathWriter.{FpathWriter, push_str, push_all, with_prefix}

abbrev pub concat : List Str → Str
concat [] = []
concat (s ∷ ss) = s ++ concat ss

-- A buffer with its front overwritten by a text.
unfoldable pub fill : Str → Str → Str
fill [] text = []
fill (x ∷ buf) [] = x ∷ buf
fill (x ∷ buf) (c ∷ text) = c ∷ fill buf text

fill-nil : (buf : Str) → fill buf [] ≡ buf
unfolding fill
fill-nil [] = refl
fill-nil (x ∷ buf) = refl

pub length-fill : (buf text : Str) → length (fill buf text) ≡ length buf
unfolding fill
length-fill [] text = refl
length-fill (x ∷ buf) [] = refl
length-fill (x ∷ buf) (c ∷ text) = ap suc (length-fill buf text)

take-append-fill :
    (buf s : Str) (c : ℕ) → c ≡ min (length s) (length buf) → take c s ++ drop c buf ≡ fill buf s
unfolding fill
take-append-fill [] s c h = let e : c ≡ 0 = omega arith in rw e
take-append-fill (x ∷ buf) [] c h = let e : c ≡ 0 = omega arith in rw e
take-append-fill (x ∷ buf) (y ∷ s) zero h = absurd (omega arith)
take-append-fill (x ∷ buf) (y ∷ s) (suc c) h = rw (take-append-fill buf s c (omega arith))

-- Writing `s` behind the front of a text is writing the longer text.
fill-append :
    (buf text s : Str) (w c e : ℕ)
    → w ≡ min (length text) (length buf)
    → c ≡ min (length s) (length buf - w)
    → e ≡ w + c
    → take w (fill buf text) ++ (take c s ++ drop e (fill buf text)) ≡ fill buf (text ++ s)
unfolding fill
fill-append [] text s w c e hw hc he =
    let w0 : w ≡ 0 = omega arith in
    let c0 : c ≡ 0 = omega arith in let e0 : e ≡ 0 = omega arith in rw (w0, c0, e0)
fill-append (x ∷ buf) [] s w c e hw hc he =
    let w0 : w ≡ 0 = omega arith in
    let ec : e ≡ c = omega arith in rw (w0, ec) (take-append-fill (x ∷ buf) s c (omega arith))
fill-append (x ∷ buf) (t ∷ text) s zero c e hw hc he = absurd (omega arith)
fill-append (x ∷ buf) (t ∷ text) s (suc w) c zero hw hc he = absurd (omega arith)
fill-append (x ∷ buf) (t ∷ text) s (suc w) c (suc e) hw hc he =
    rw (fill-append buf text s w c e (omega arith) (omega arith) (omega arith))

-- What a writer over `buf` has done when `text` has gone through it.
record Wrote (buf text : Str) (w : FpathWriter) : Type 0 where
  holds : w.buf ≡ fill buf text
  count : w.written ≡ min (length text) (length buf)

fresh : (buf : Str) → Wrote buf [] (record { buf = buf; written = 0 })
fresh buf = record { holds = sym (fill-nil buf); count = omega arith }

push_str-Wrote :
    (buf text s : Str) (w : FpathWriter) → Wrote buf text w → Wrote buf (text ++ s) (push_str w s)
unfolding push_str
push_str-Wrote buf text s w h =
    let n : length w.buf ≡ length buf = ap length h.holds ∙ length-fill buf text in
    let count = min (length s) (length w.buf - w.written) in
    record {
      holds = rw h.holds (
          fill-append buf text s w.written (min (length s) (length (fill buf text) - w.written))
            (w.written + min (length s) (length (fill buf text) - w.written)) h.count
            (omega (arith, length-fill buf text)) refl);
      count = omega (arith, h.count, n, length-append text s);
    }

push_all-Wrote :
    (buf text : Str) (parts : List Str) (w : FpathWriter)
    → Wrote buf text w
    → Wrote buf (text ++ concat parts) (push_all w parts)
unfolding push_all
push_all-Wrote buf text [] w h = rw append-nil h
push_all-Wrote buf text (s ∷ parts) w h =
    rw (← append_assoc text s (concat parts))
      (push_all-Wrote buf (text ++ s) parts (push_str w s) (push_str-Wrote buf text s w h))

-- A path whose texts are written without an error: the buffer is overwritten by the front of the
-- whole text, and the count is that of the bytes written, at most the size of the buffer.
pub with_prefix_lem :
    (buf : Str) (prefix parts : List Str)
    → let text = concat prefix ++ concat parts in
      with_prefix buf prefix (ok parts) ≡ (ok (min (length text) (length buf)), fill buf text)
unfolding with_prefix
with_prefix_lem buf prefix parts =
    let start = push_all-Wrote buf [] prefix (record { buf = buf; written = 0 }) (fresh buf) in
    let done =
      push_all-Wrote buf (concat prefix) parts (push_all (record { buf = buf; written = 0 }) prefix)
        start in
    cc (done.holds, done.count)
