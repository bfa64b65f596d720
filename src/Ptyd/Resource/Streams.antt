-- ===== src/Ptyd/Resource/Streams.antt =====
-- What the readers of a terminal get: reads of any size give the bytes in order.
use eos_base.Base.{
  ℕ, zero, suc, ◌≡◌, ◌≤◌, refl, sym, ap, ap₂, ◌∙◌, some, List, [], ◌∷◌, ◌++◌, arith, ltb,
  if◌then◌else◌, append_assoc, length, drop, take, take-append-drop, Bool-cases, inl, inr,
}
use eos_base.Base.Text.{Str}
use eos_base.Base.Syscall.{Syscall}
use eos_base.Base.Result.{ok}
use eos_base.Ptyd.Termios.{RedoxTermios}
use eos_base.Ptyd.Pty.{Pty, update}
use eos_base.Ptyd.Pty.Stream.{stream, concat, update-stream}
use eos_base.Ptyd.Resource.{Term, copy}
use eos_base.Ptyd.Resource.Ops.{read_sub, read_mosi}

-- The loop copies the front of the packet, as much as fits.
pub take-copy : (buf packet : Str) → let (i, buf') = copy buf packet in take i buf' ≡ take i packet
unfolding copy
take-copy [] packet = refl
take-copy (x ∷ buf) [] = refl
take-copy (x ∷ buf) (c ∷ packet) = ap (λ s. c ∷ s) (take-copy buf packet)

copy_le : (buf packet : Str) → (copy buf packet).0 ≤ length packet
unfolding copy
copy_le [] packet = omega arith
copy_le (x ∷ buf) [] = omega arith
copy_le (x ∷ buf) (c ∷ packet) = omega (arith, copy_le buf packet)

pub drop_all : (i : ℕ) (s : Str) → length s ≤ i → drop i s ≡ []
drop_all zero [] h = refl
drop_all (suc i) [] h = refl
drop_all zero (x ∷ s) h = absurd (omega arith)
drop_all (suc i) (x ∷ s) h = drop_all i s (omega arith)

-- What is left of a packet goes back in front of the queue; nothing left is no packet.
left-over :
    (i : ℕ) (packet : Str) (queue : List Str)
    → concat (if ltb i (length packet) then drop i packet ∷ queue else queue)
      ≡ drop i packet ++ concat queue
unfolding concat
left-over i packet queue = elim (Bool-cases (ltb i (length packet))) [
  | inl more ↦ rw more
  | inr all ↦ rw (all, drop_all i packet (ground arith))
]

read_mosi-stream :
    (sys : Syscall) (t : RedoxTermios) (c : Term) (p : Pty) (buf packet : Str) (mosi : List Str)
    → let (i, buf') = copy buf packet in
      let p' = record p { mosi = if ltb i (length packet) then drop i packet ∷ mosi else mosi } in
      take i buf' ++ stream p' ≡ concat (packet ∷ mosi) ++ p.cooked
unfolding concat
read_mosi-stream sys t c p buf packet mosi =
    let i = (copy buf packet).0 in
    ap₂ (λ a b. a ++ (b ++ p.cooked)) (take-copy buf packet) (left-over i packet mosi)
    ∙ sym (append_assoc (take i packet) (drop i packet ++ concat mosi) p.cooked)
    ∙ ap (λ s. s ++ p.cooked)
        (sym (append_assoc (take i packet) (drop i packet) (concat mosi))
          ∙ ap (λ s. s ++ concat mosi) (take-append-drop i packet))

-- A read of the sub-terminal that returns `i` gives the next `i` bytes of what there is to read; the
-- rest is still there, in order.
pub read_sub-stream :
    (sys : Syscall) (t : RedoxTermios) (c : Term) (p : Pty) (buf : Str) (i : ℕ)
    → (read_sub sys t c (some p) buf).result ≡ ok i
    → (p' : Pty) × ((read_sub sys t c (some p) buf).pty ≡ some p')
      × (take i (read_sub sys t c (some p) buf).buf ++ stream p' ≡ stream p)
unfolding read_sub read_mosi
read_sub-stream sys t c p buf i h = go (update t p) (update-stream t p) (update t p).mosi refl h
  where
    go :
        (q : Pty)
        → stream q ≡ stream p
        → (mosi : List Str) → q.mosi ≡ mosi
        → (read_mosi sys t c q buf mosi).result ≡ ok i
        → (p' : Pty) × ((read_mosi sys t c q buf mosi).pty ≡ some p')
          × (take i (read_mosi sys t c q buf mosi).buf ++ stream p' ≡ stream p)
    go q same [] e h = absurd (ground arith)
    go q same (packet ∷ mosi) e h =
        let n = (copy buf packet).0 in
        let n_eq : n ≡ i = ground arith in
        (
          record q { mosi = if ltb n (length packet) then drop n packet ∷ mosi else mosi },
          refl,
          rw (← n_eq) (
              read_mosi-stream sys t c q buf packet mosi
              ∙ ap (λ m. concat m ++ q.cooked) (sym e)
              ∙ same),
        )
