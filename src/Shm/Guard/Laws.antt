-- ===== src/Shm/Guard/Laws.antt =====
-- Reads and writes of a shared object, and what a write does to its length.
use eos_base.Base.{
  ℕ, zero, suc, ◌+◌, ◌-◌, ◌^◌, ◌≤◌, ◌≡◌, refl, ap, ◌∙◌, false, [], ◌∷◌, ◌++◌, arith, leb, ltb,
  length, take, drop, min, length-take, Bool-cases, inl, inr,
}
use eos_base.Base.Text.{Str}
use eos_base.Base.Result.{Result, ok, err, panic}
use eos_base.Shm.Guard.{Kernel, MmapGuard, grow_to, read, write, overwrite, store}

drop-append_length : (n : ℕ) (xs ys : Str) → n ≡ length xs → drop n (xs ++ ys) ≡ ys
drop-append_length zero [] ys h = refl
drop-append_length zero (x ∷ xs) ys h = absurd (omega arith)
drop-append_length (suc n) [] ys h = absurd (omega arith)
drop-append_length (suc n) (x ∷ xs) ys h = drop-append_length n xs ys (omega arith)

take-append_length : (n : ℕ) (xs ys : Str) → n ≡ length xs → take n (xs ++ ys) ≡ xs
take-append_length zero [] ys h = refl
take-append_length zero (x ∷ xs) ys h = absurd (omega arith)
take-append_length (suc n) [] ys h = absurd (omega arith)
take-append_length (suc n) (x ∷ xs) ys h =
    ap (λ s. x ∷ s) (take-append_length n xs ys (omega arith))

take_all : (n : ℕ) (xs : Str) → n ≡ length xs → take n xs ≡ xs
take_all zero [] h = refl
take_all zero (x ∷ xs) h = absurd (omega arith)
take_all (suc n) [] h = refl
take_all (suc n) (x ∷ xs) h = ap (λ s. x ∷ s) (take_all n xs (omega arith))

module _ (k : Kernel) where
  grow_to-len : (g : MmapGuard) (n : ℕ) → (grow_to k g n).0 ≡ ok tt → (grow_to k g n).1.len ≡ n
  unfolding grow_to
  grow_to-len g n h = ground arith

  store_ok :
      (g g' : MmapGuard) (offset n : ℕ) (buf : Str) (r : Result (Unit {0}))
      → store k g offset buf r ≡ (ok n, g')
      → (r ≡ ok tt)
        × (n ≡ min (g.len - offset) (length buf))
        × (g'.len ≡ g.len)
        × (g'.memory ≡ overwrite k g.memory offset (take n buf))
  store_ok g g' offset n buf (ok tt) h = ground arith
  store_ok g g' offset n buf (err e) h = absurd (ground arith)
  store_ok g g' offset n buf panic h = absurd (ground arith)

read_placed :
    (k : Kernel) (g : MmapGuard) (offset : ℕ) (buf rest : Str)
    → g.len ≡ offset + length buf
    → drop offset g.memory ≡ buf ++ rest
    → read k g offset (length buf) ≡ ok buf
unfolding read
read_placed k g offset [] rest l placed = ground arith
read_placed k g offset (c ∷ buf) rest l placed =
    let inside : leb g.len offset ≡ false = ground arith in
    rw (inside, placed)
      (ap ok
        (take-append_length (min (g.len - offset) (suc (length buf))) (c ∷ buf) rest (omega arith)))

module _ (k : Kernel) (g : MmapGuard) (offset n : ℕ) (buf : Str) (g' : MmapGuard) where
  abbrev grown : MmapGuard
  grown = (grow_to k g (offset + length buf)).1

  write_ok :
      write k g offset buf ≡ (ok n, g')
      → (n ≡ length buf)
        × (g'.len ≡ offset + length buf)
        × (g'.memory ≡ overwrite k grown.memory offset (take n buf))
  unfolding write
  write_ok h = elim (Bool-cases (ltb (offset + length buf) (2 ^ 64))) [
    | inr wraps ↦ absurd (ground arith)
    | inl fits ↦
        let (r, m, l, memory) =
          store_ok k grown g' offset n buf (grow_to k g (offset + length buf)).0 (rw fits at h) in
        let len = grow_to-len k g (offset + length buf) r in (omega arith, omega arith, memory)
  ]

  -- A write that returns has written all of its bytes, and the object then ends where the write
  -- ended, also where it was longer before.
  pub write-len :
      write k g offset buf ≡ (ok n, g') → (n ≡ length buf) × (g'.len ≡ offset + length buf)
  write-len h = let (m, l, _) = write_ok h in (m, l)

  -- Behind a write that returns, a read of the same place gives the bytes written, if the mapping
  -- that the kernel made reaches that far.
  pub read-write_guard :
      write k g offset buf ≡ (ok n, g')
      → offset + length buf ≤ length grown.memory
      → read k g' offset (length buf) ≡ ok buf
  read-write_guard h fits =
      let (m, l, memory) = write_ok h in
      let all : take n buf ≡ buf = take_all n buf m in
      let placed : drop offset g'.memory ≡ buf ++ drop (offset + length buf) grown.memory =
        ap (drop offset) memory
        ∙ drop-append_length offset (take offset grown.memory)
            (take n buf ++ drop (offset + length (take n buf)) grown.memory)
            (omega (arith, length-take offset grown.memory))
        ∙ ap (λ b. b ++ drop (offset + length b) grown.memory) all in
      read_placed k g' offset buf (drop (offset + length buf) grown.memory) l placed
