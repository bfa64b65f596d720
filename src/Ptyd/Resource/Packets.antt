-- ===== src/Ptyd/Resource/Packets.antt =====
-- What the control terminal reads: packets with a first byte that tells data from a sync.
use eos_base.Base.{
  ℕ, zero, suc, ◌≡◌, refl, sym, ap, ap₂, ◌∙◌, some, List, [], ◌∷◌, ◌++◌, arith, ltb, if◌then◌else◌,
  append_assoc, length, drop, take, take-append-drop, Bool-cases, inl, inr,
}
use eos_base.Base.Text.{Str}
use eos_base.Base.Syscall.{Syscall}
use eos_base.Base.Result.{ok}
use eos_base.Ptyd.Termios.{RedoxTermios}
use eos_base.Ptyd.Pty.{Pty}
use eos_base.Ptyd.Resource.{Term, copy}
use eos_base.Ptyd.Resource.Ops.{read_control, read_miso}
use eos_base.Ptyd.Resource.Streams.{take-copy, drop_all}

abbrev tail : Str → Str
tail [] = []
tail (h ∷ s) = s

-- The data of the packets, each behind its first byte.
pub payload : List Str → Str
payload [] = []
payload (packet ∷ miso) = tail packet ++ payload miso

-- The packets with the rest of one in front, behind its first byte; of nothing there is no packet.
pub behind : ℕ → Str → List Str → List Str
behind h [] miso = miso
behind h (x ∷ s) miso = (h ∷ x ∷ s) ∷ miso

rest-behind :
    (i h : ℕ) (data' : Str) (miso : List Str)
    → (if ltb (suc i) (suc (length data')) then (h ∷ drop i data') ∷ miso else miso)
      ≡ behind h (drop i data') miso
unfolding behind
rest-behind zero h [] miso = refl
rest-behind zero h (x ∷ s) miso = ground arith
rest-behind (suc i) h [] miso = ground arith
rest-behind (suc i) h (x ∷ s) miso = ground (arith, rest-behind i h s miso)

module _ (sys : Syscall) (t : RedoxTermios) (c : Term) where
  rest_payload :
      (i h : ℕ) (data' : Str) (miso : List Str)
      → payload (if ltb (suc i) (suc (length data')) then (h ∷ drop i data') ∷ miso else miso)
        ≡ drop i data' ++ payload miso
  unfolding payload
  rest_payload i h data' miso = elim (Bool-cases (ltb (suc i) (suc (length data')))) [
    | inl more ↦ rw more
    | inr all ↦ rw (all, drop_all i data' (ground arith))
  ]

  -- A read with room for at least one byte, when a packet is there that has a first byte, gives this byte
  -- and the next data. What the packet has left is the next packet, behind the same first byte, in front
  -- of the other packets as they were; a packet that is read whole is gone. So all the data is read, in
  -- order.
  pub read_control-payload :
      (p : Pty) (w x h : ℕ) (buf data' : Str) (miso : List Str)
      → p.miso ≡ (h ∷ data') ∷ miso
      → let d = read_control sys t c p w (x ∷ buf) in
        (i : ℕ) × (p' : Pty) × (rest : Str) × (d.result ≡ ok (suc i))
        × (d.pty ≡ some p')
        × (d.buf ≡ h ∷ rest)
        × (p'.miso ≡ behind h (drop i data') miso)
        × (take i rest ++ payload p'.miso ≡ payload p.miso)
  unfolding read_control read_miso payload copy
  read_control-payload p w x h buf data' miso e =
      let i = (copy buf data').0 in
      (
        i,
        record p {
          miso = if ltb (suc i) (suc (length data')) then (h ∷ drop i data') ∷ miso else miso;
        },
        (copy buf data').1,
        simp e,
        simp e,
        simp e,
        rest-behind i h data' miso,
        ap₂ ◌++◌ (take-copy buf data') (rest_payload i h data' miso)
            ∙ sym (append_assoc (take i data') (drop i data') (payload miso))
            ∙ ap (λ s. s ++ payload miso) (take-append-drop i data')
            ∙ sym (ap payload e),
      )

  -- A read with no room takes the packet's first byte for data: it is then read a second time.
  pub read_control-empty_buf :
      (p : Pty) (w h : ℕ) (data' : Str) (miso : List Str)
      → p.miso ≡ (h ∷ data') ∷ miso
      → let d = read_control sys t c p w [] in
        (p' : Pty) × (d.result ≡ ok 0) × (d.pty ≡ some p') × (payload p'.miso ≡ h ∷ payload p.miso)
  unfolding read_control read_miso payload copy
  read_control-empty_buf p w h data' miso e =
      (record p { miso = (h ∷ h ∷ data') ∷ miso }, simp e, simp e (ground arith), simp e)
