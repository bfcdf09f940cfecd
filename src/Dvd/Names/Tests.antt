-- ===== src/Dvd/Names/Tests.antt =====
-- The path "/a/" of a directory, in a buffer of four characters and in one of three.
use gamecube_port.Base.{refl, arith, [], ◌∷◌, ◌++◌}
use gamecube_port.GcMem.{load_u8, load_u32be, gc_mem_ptr}
use gamecube_port.Dvd.{Dvd}
use gamecube_port.Dvd.Paths.{slash}
use gamecube_port.Dvd.Names.{get_current_dir}
use gamecube_port.Dvd.Names.Copied.{Leads, spell}
use gamecube_port.Dvd.Names.Spelled.{IsNamed, get_current_dir-IsNamed}
use gamecube_port.Dvd.Paths.Tests.{disc, name_a}

abbrev inside : Dvd
inside = record disc { current_directory = 1 }

leads : Leads inside 1 (name_a ∷ [])
unfolding load_u8 load_u32be gc_mem_ptr
leads = (omega arith, (refl, (omega arith, omega arith), refl), refl)

get_current_dir-IsNamed_example :
    IsNamed (λ i. 7) 4 (spell (name_a ∷ []) ++ (slash ∷ [])) (get_current_dir 2 inside 4 (λ i. 7))
unfolding load_u32be gc_mem_ptr
get_current_dir-IsNamed_example =
    get_current_dir-IsNamed inside (λ i. 7) 4 2 (name_a ∷ []) (omega arith) (omega arith)
      (omega arith) refl leads (omega arith)
