-- ===== src/Ramfs/Contents/Bytes.antt =====
-- A file as an array of bytes without an end, 0 where nothing was written: what a write, a change of
-- the length and a read are to such an array.
use eos_base.Base.{
  ℕ, zero, suc, ◌+◌, ◌-◌, ◌≤◌, ◌≡◌, refl, Bool, ◌&&◌, [], ◌∷◌, ◌++◌, arith, ltb, leb, max, length,
  take, drop, replicate, get_or, length-append, length-take, length-drop, length-replicate,
  if◌then◌else◌, Bool-cases, inl, inr,
}
use eos_base.Base.Text.{Str}
use eos_base.Base.Result.{ok}
use eos_base.Ramfs.{FsFlags}
use eos_base.Ramfs.Contents.{overwrite, resize, write_bytes}

-- The byte at an index.
abbrev pub at : Str → ℕ → ℕ
at bytes i = get_or bytes i 0

at-append :
    (xs ys : Str) (i : ℕ)
    → at (xs ++ ys) i ≡ (if ltb i (length xs) then at xs i else at ys (i - length xs))
at-append [] ys i = ground arith
at-append (x ∷ xs) ys zero = ground arith
at-append (x ∷ xs) ys (suc i) = ground (arith, at-append xs ys i)

pub at-take : (n : ℕ) (xs : Str) (i : ℕ) → at (take n xs) i ≡ (if ltb i n then at xs i else 0)
at-take zero xs i = ground arith
at-take (suc n) [] i = ground arith
at-take (suc n) (x ∷ xs) zero = ground arith
at-take (suc n) (x ∷ xs) (suc i) = ground (arith, at-take n xs i)

pub at-drop : (n : ℕ) (xs : Str) (i : ℕ) → at (drop n xs) i ≡ at xs (n + i)
at-drop zero xs i = ground arith
at-drop (suc n) [] i = refl
at-drop (suc n) (x ∷ xs) i = ground (arith, at-drop n xs i)

at-replicate : (n i : ℕ) → at (replicate n 0) i ≡ 0
at-replicate zero i = refl
at-replicate (suc n) zero = refl
at-replicate (suc n) (suc i) = at-replicate n i

at-past_end : (xs : Str) (i : ℕ) → length xs ≤ i → at xs i ≡ 0
at-past_end [] i h = refl
at-past_end (x ∷ xs) zero h = absurd (omega arith)
at-past_end (x ∷ xs) (suc i) h = at-past_end xs i (omega arith)

pub length-resize : (bytes : Str) (n : ℕ) → length (resize bytes n) ≡ n
unfolding resize
length-resize bytes n = omega (
  arith,
  length-append (take n bytes) (replicate (n - length bytes) 0),
  length-take n bytes,
  length-replicate {A = ℕ} (n - length bytes) 0,
)

pub at-resize :
    (bytes : Str) (n i : ℕ) → at (resize bytes n) i ≡ (if ltb i n then at bytes i else 0)
unfolding resize
at-resize bytes n i = ground (
  arith,
  at-append (take n bytes) (replicate (n - length bytes) 0) i,
  length-take n bytes,
  at-take n bytes i,
  at-replicate (n - length bytes) (i - length (take n bytes)),
  at-past_end bytes i,
)

length-overwrite :
    (bytes : Str) (offset : ℕ) (buf : Str)
    → offset + length buf ≤ length bytes
    → length (overwrite bytes offset buf) ≡ length bytes
length-overwrite bytes offset buf h = omega (
  arith,
  length-append (take offset bytes) (buf ++ drop (offset + length buf) bytes),
  length-append buf (drop (offset + length buf) bytes),
  length-take offset bytes,
  length-drop (offset + length buf) bytes,
)

at-overwrite :
    (bytes : Str) (offset : ℕ) (buf : Str) (i : ℕ)
    → offset + length buf ≤ length bytes
    → at (overwrite bytes offset buf) i
      ≡ (if leb offset i && ltb i (offset + length buf) then at buf (i - offset) else at bytes i)
at-overwrite bytes offset buf i h = ground (
  arith,
  at-append (take offset bytes) (buf ++ drop (offset + length buf) bytes) i,
  at-append buf (drop (offset + length buf) bytes) (i - length (take offset bytes)),
  length-take offset bytes,
  at-take offset bytes i,
  at-drop (offset + length buf) bytes (i - length (take offset bytes) - length buf),
)

-- What a write is to the array: the bytes written where they go, and all else as it was.
abbrev pub stored : (ℕ → ℕ) → ℕ → Str → ℕ → ℕ
stored f offset buf i =
    if leb offset i && ltb i (offset + length buf) then at buf (i - offset) else f i

module _ (fl : FsFlags) (room : ℕ → Bool) where
  pub write_bytes-stored :
      (bytes : Str) (offset : ℕ) (buf bytes' : Str)
      → write_bytes fl room bytes offset buf ≡ ok bytes'
      → (length bytes' ≡ max (length bytes) (offset + length buf))
        × ((i : ℕ) → at bytes' i ≡ stored (at bytes) offset buf i)
  unfolding write_bytes
  write_bytes-stored bytes offset buf bytes' h =
      elim (Bool-cases (ltb (length bytes) (offset + length buf))) [
        | inr inside ↦ (
          ground (arith, length-overwrite bytes offset buf),
          λ i. ground (arith, at-overwrite bytes offset buf i),
        )
        | inl grows ↦ (
          ground (
            arith,
            length-overwrite (resize bytes (offset + length buf)) offset buf,
            length-resize bytes (offset + length buf),
          ),
          λ i. ground (
            arith,
            at-overwrite (resize bytes (offset + length buf)) offset buf i,
            length-resize bytes (offset + length buf),
            at-resize bytes (offset + length buf) i,
            at-past_end bytes i,
          ),
        )
      ]
