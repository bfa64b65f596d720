-- ===== src/Ramfs/Permission.antt =====
-- `current_perm` and `check_permissions` of ramfs/src/scheme.rs.
use eos_base.Base.{ℕ, ◌/◌, ◌^◌, ◌&&◌, not, ◌==◌, bit_and, if◌then◌else◌}
use eos_base.Base.Result.{Result, ok, err, eacces}
use eos_base.Ramfs.{FsFlags, File}

-- The permission bits that count for a user: those of everyone, of the owner, of the group, or of
-- the others.
unfoldable pub current_perm : FsFlags → File → ℕ → ℕ → ℕ
current_perm fl f uid gid =
    let perm = bit_and f.mode fl.mode_perm in
    if uid == 0
    then 0o7
    else if uid == f.uid
    then bit_and perm 0o700 / 2 ^ 6
    else if gid == f.gid
    then bit_and perm 0o70 / 2 ^ 3
    else bit_and perm 0o7

unfoldable pub check_permissions : FsFlags → ℕ → ℕ → Result (Unit {0})
check_permissions fl flags single_mode =
    let acc = bit_and flags fl.o_accmode in
    if acc == fl.o_rdonly && bit_and single_mode 0o4 == 0
    then err eacces
    else if acc == fl.o_wronly && bit_and single_mode 0o2 == 0
    then err eacces
    else if acc == fl.o_rdwr && not (bit_and single_mode 0o6 == 0o6)
    then err eacces
    else ok tt
