-- ===== src/OsModule/Tests.antt =====
-- A list of two modules.
use gamecube_port.Base.{◌≡◌, refl, arith, [], ◌∷◌, true, if◌then◌else◌, ◌==◌}
use gamecube_port.OsModule.{Modules, link, unlink}
use gamecube_port.OsModule.Links.{IsModules, link-append}
use gamecube_port.OsModule.Unlink.{unlink-remove}

abbrev modules : Modules
modules = record {
  head = 0x10;
  tail = 0x20;
  prev = λ x. if x == 0x20 then 0x10 else 0;
  next = λ x. if x == 0x10 then 0x20 else 0;
  string_table = 0;
}

two-IsModules : IsModules modules (0x10 ∷ 0x20 ∷ [])
two-IsModules = record {
  head = refl;
  tail = refl;
  links = (refl, refl, (refl, refl, tt));
  alive = (omega arith, (omega arith, tt));
  distinct = ((omega arith, tt), (tt, tt));
}

link-append_example :
    ((link 0x30 modules).0 ≡ true) × IsModules ((link 0x30 modules).1) (0x10 ∷ 0x20 ∷ 0x30 ∷ [])
link-append_example =
    link-append modules (0x10 ∷ 0x20 ∷ []) 0x30 two-IsModules (omega arith) refl
      (omega arith, (omega arith, tt))

unlink-remove_example :
    let (ok, st') = unlink 0x10 modules in
    (ok ≡ true) × IsModules st' (0x20 ∷ []) × ((st'.prev 0x10 ≡ 0) × (st'.next 0x10 ≡ 0))
unlink-remove_example = unlink-remove modules [] 0x10 (0x20 ∷ []) two-IsModules
