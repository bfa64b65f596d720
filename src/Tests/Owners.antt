-- ===== src/Tests/Owners.antt =====
-- A run of ptyd's scheme from its start: the root is opened, and a terminal with it.
use eos_base.Base.{◌≡◌, refl, false, ◌∷◌, [], arith}
use eos_base.Base.Text.{Str, bytes}
use eos_base.Ptyd.Scheme
use eos_base.Base.Text.{str_eq}
use eos_base.Base.Map
use eos_base.Ptyd.Scheme.{
  PtyScheme, read, write, scheme_root_id, openat, open_path, open_control, trim_matches, trim_start,
  trim_end, trim_cons, on_resource, settle,
}
use eos_base.Ptyd.Scheme.Owners.{IsValid}
use eos_base.Ptyd.Scheme.Owners.Calls.{is_panic}
use eos_base.Ptyd.Scheme.Owners.Requests.{
  root, opens, writes, times, handle, Reach, here, after, Reach-total,
}
use eos_base.Tests.Terminals.{sys, tio}

abbrev started : PtyScheme
started = handle sys (tio 8) (opens 0 (bytes "/ptmx") 0 0) (handle sys (tio 8) root Scheme.new)

abbrev scheme : PtyScheme
scheme = handle sys (tio 8) (times 1) (handle sys (tio 8) (writes 1 (97 ∷ 10 ∷ [])) started)

abbrev rooted : PtyScheme
rooted = handle sys (tio 8) root Scheme.new

rooted_id : rooted.next_id ≡ 1
unfolding handle scheme_root_id
rooted_id = refl

started_id : started.next_id ≡ 2
unfolding handle scheme_root_id openat open_path open_control trim_matches trim_start trim_end
    trim_cons str_eq Map.get Map.insert
started_id = refl

written_id : (handle sys (tio 8) (writes 1 (97 ∷ 10 ∷ [])) started).next_id ≡ 2
unfolding handle scheme_root_id openat open_path open_control trim_matches trim_start trim_end
    trim_cons str_eq Map.get Map.insert write on_resource settle
written_id = refl

scheme_reached : Reach sys (tio 8) Scheme.new scheme
scheme_reached =
    after
      (after
        (after (after here (omega arith) root) (omega (arith, rooted_id))
          (opens 0 (bytes "/ptmx") 0 0))
        (omega (arith, started_id)) (writes 1 (97 ∷ 10 ∷ [])))
      (omega (arith, written_id)) (times 1)

Reach-total_example :
    let line : Str = 97 ∷ 10 ∷ [] in
    IsValid scheme
    × (is_panic (read sys (tio 8) 1 line scheme).0.0 ≡ false)
    × (is_panic (write sys (tio 8) 1 line scheme).0.0 ≡ false)
Reach-total_example = Reach-total sys (tio 8) scheme 1 (97 ∷ 10 ∷ []) scheme_reached
