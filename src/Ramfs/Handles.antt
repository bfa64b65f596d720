-- ===== src/Ramfs/Handles.antt =====
-- The handles of a file in ramfs/src/scheme.rs: each file counts at least the handles that are open
-- for it, so that a file stays as long as a handle names it. The root is left out: `scheme_root`
-- hands out handles of it that it does not count.
pub mod Opening
pub mod Changes
pub mod Reach
use eos_base.Base.{
  ℕ, ◌+◌, ◌^◌, true, ◌||◌, ltb, ◌≤◌, ◌<◌, ◌≡◌, ◌≢◌, Bool, Option, none, some, arith, ◌==◌, ◌&&◌,
  if◌then◌else◌, Bool-cases, Option-cases, inl, inr, ◌⊎◌,
}
use eos_base.Base.Map
use eos_base.Base.Map.{get-insert, get-remove}
use eos_base.Base.Map.Count.{
  IsKeyed, count, count-insert, count-remove, count-remove-none, insert-IsKeyed, remove-IsKeyed,
}
use eos_base.SchemeUtils.HandleMap
use eos_base.SchemeUtils.HandleMap.Laws
use eos_base.SchemeUtils.HandleMap.Laws.{insert_table, remove-IsValid}
use eos_base.Ramfs.{File, Scheme, root_inode, set_files, add_handle, wrapping_sub}
use eos_base.Ramfs.Open.{on_close, close_file}

abbrev pub names : ℕ → ℕ → Bool
names i j = j == i

abbrev pub opens_of : Option File → ℕ
opens_of none = 0
opens_of (some f) = f.open_handles

-- A handle that is about to be made.
abbrev pub pending : Option ℕ → ℕ → ℕ
pending none i = 0
pending (some j) i = if j == i then 1 else 0

-- A file other than the root has a number above its parent's.
abbrev pub climbs : ℕ → Option File → Bool
climbs i none = true
climbs i (some f) = i == root_inode || ltb f.parent i

-- The state between two requests, with `none`, and before the handle of a file that was just opened
-- is made.
pub record Counted (next : Option ℕ) (s : Scheme) : Type 0 where
  pub valid : Laws.IsValid s.handles
  pub keyed : IsKeyed s.handles.handles
  pub counted :
      (i : ℕ)
      → i ≢ root_inode
      → count (names i) s.handles.handles + pending next i ≤ opens_of (Map.get s.filesystem.files i)
  pub bounded : (i : ℕ) → opens_of (Map.get s.filesystem.files i) < 2 ^ 64
  pub numbered : (i : ℕ) → s.filesystem.last_inode_number < i → Map.get s.filesystem.files i ≡ none
  pub rooted : (i : ℕ) → climbs i (Map.get s.filesystem.files i) ≡ true

abbrev pub IsCounted : Scheme → Type 0
IsCounted s = Counted none s

pub weaken : (j : ℕ) (s : Scheme) → Counted (some j) s → IsCounted s
weaken j s c = record {
  valid = c.valid;
  keyed = c.keyed;
  counted = λ i ne. ground (arith, c.counted i ne);
  bounded = c.bounded;
  numbered = c.numbered;
  rooted = c.rooted;
}

-- A file that changes but for its handles.
pub put_file :
    (s : Scheme) (next : Option ℕ) (inode : ℕ) (g f : File)
    → Counted next s
    → Map.get s.filesystem.files inode ≡ some g
    → f.open_handles ≡ g.open_handles
    → f.parent ≡ g.parent
    → Counted next (set_files (λ files. Map.insert files inode f) s)
put_file s next inode g f c found same above = record {
  valid = c.valid;
  keyed = c.keyed;
  counted = λ i ne. ground (arith, c.counted i ne, get-insert s.filesystem.files inode f i);
  bounded = λ i. ground (arith, c.bounded i, get-insert s.filesystem.files inode f i);
  numbered = λ i new. ground (arith, c.numbered i new, get-insert s.filesystem.files inode f i);
  rooted = λ i. ground (arith, c.rooted i, get-insert s.filesystem.files inode f i);
}

-- A file without handles that goes.
pub remove_file :
    (s : Scheme) (inode : ℕ) (g : File)
    → IsCounted s
    → Map.get s.filesystem.files inode ≡ some g
    → g.open_handles ≡ 0
    → IsCounted (set_files (λ files. Map.remove files inode) s)
remove_file s inode g c found idle = record {
  valid = c.valid;
  keyed = c.keyed;
  counted = λ i ne. ground (arith, c.counted i ne, get-remove s.filesystem.files inode i);
  bounded = λ i. ground (arith, c.bounded i, get-remove s.filesystem.files inode i);
  numbered = λ i new. ground (arith, c.numbered i new, get-remove s.filesystem.files inode i);
  rooted = λ i. ground (arith, c.rooted i, get-remove s.filesystem.files inode i);
}

-- The handle of a file that was opened.
pub add_handle-Counted :
    (s : Scheme) (next : Option ℕ) (inode : ℕ)
    → Counted next s
    → (inode ≡ root_inode) ⊎ (next ≡ some inode)
    → Map.size s.handles.handles + 1 < 2 ^ 64
    → IsCounted (add_handle inode s).1
add_handle-Counted s next inode c counts small =
    let (h', inserted, handles, v) = insert_table s.handles inode c.valid small in
    rw (add_handle, inserted)
      (record {
        valid = v;
        keyed =
            rw handles
              (insert-IsKeyed s.handles.handles s.handles.next_id inode c.valid.unused c.keyed);
        counted = λ i ne. rw handles (
            ground (
              arith,
              c.counted i ne,
              counts,
              count-insert (names i) s.handles.handles s.handles.next_id inode c.valid.unused,
            ));
        bounded = c.bounded;
        numbered = c.numbered;
        rooted = c.rooted;
      })

-- The file of a handle that closes: with one handle less, or gone.
close_file-IsCounted :
    (s : Scheme) (fd i : ℕ) (f : File)
    → IsCounted s
    → Map.get s.handles.handles fd ≡ some i
    → Map.get s.filesystem.files i ≡ some f
    → IsCounted (close_file i f (record s { handles = (HandleMap.remove s.handles fd).1 }))
unfolding close_file HandleMap.remove
close_file-IsCounted s fd i f c held found =
    let left = wrapping_sub f.open_handles 1 in
    let f' = record f { open_handles = left } in
    let files = s.filesystem.files in
    let one = λ (j : ℕ). count-remove (names j) s.handles.handles fd i c.keyed held in
    elim (Bool-cases (f.nlink == 0 && left == 0)) [
      | inl gone ↦ rw gone (record {
        valid = remove-IsValid s.handles fd c.valid;
        keyed = remove-IsKeyed s.handles.handles fd c.keyed;
        counted = λ j ne.
            ground
              (arith, c.counted j ne, c.counted i, one j, get-remove files i j, gone, c.bounded i);
        bounded = λ j. ground (arith, c.bounded j, get-remove files i j);
        numbered = λ j new. ground (arith, c.numbered j new, get-remove files i j);
        rooted = λ j. ground (arith, c.rooted j, get-remove files i j);
      })
      | inr stays ↦ rw stays (record {
        valid = remove-IsValid s.handles fd c.valid;
        keyed = remove-IsKeyed s.handles.handles fd c.keyed;
        counted =
            λ j ne. ground (arith, c.counted j ne, one j, get-insert files i f' j, c.bounded i);
        bounded = λ j. ground (arith, c.bounded j, get-insert files i f' j);
        numbered = λ j new. ground (arith, c.numbered j new, get-insert files i f' j);
        rooted = λ j. ground (arith, c.rooted j, get-insert files i f' j);
      })
    ]

pub on_close-IsCounted : (s : Scheme) (fd : ℕ) → IsCounted s → IsCounted (on_close fd s)
unfolding on_close HandleMap.remove
on_close-IsCounted s fd c = elim (Option-cases (Map.get s.handles.handles fd)) [
  | inl closed ↦
      rw (on_close, closed)
        (record {
          valid = remove-IsValid s.handles fd c.valid;
          keyed = remove-IsKeyed s.handles.handles fd c.keyed;
          counted = λ j ne.
              ground
                (arith, c.counted j ne, count-remove-none (names j) s.handles.handles fd closed);
          bounded = c.bounded;
          numbered = c.numbered;
          rooted = c.rooted;
        })
  | inr (i, held) ↦ elim (Option-cases (Map.get s.filesystem.files i)) [
    | inl nothing ↦
        rw (on_close, held)
          (rw nothing (record {
            valid = remove-IsValid s.handles fd c.valid;
            keyed = remove-IsKeyed s.handles.handles fd c.keyed;
            counted = λ j ne.
                ground (
                  arith,
                  c.counted j ne,
                  count-remove (names j) s.handles.handles fd i c.keyed held,
                );
            bounded = c.bounded;
            numbered = c.numbered;
            rooted = c.rooted;
          }))
    | inr (f, found) ↦ rw (on_close, held) (rw found (close_file-IsCounted s fd i f c held found))
  ]
]
