-- ===== src/Dvd/Files/Tests.antt =====
-- A file of three bytes in an empty table.
use gamecube_port.Base.{
  ℕ, zero, suc, ◌≡◌, ◌≢◌, refl, arith, Option, none, some, List, [], ◌∷◌, true,
}
use gamecube_port.Dvd.{Dvd}
use gamecube_port.Dvd.Files.{set_file, fast_open, read}
use gamecube_port.Dvd.Files.Stored.{set_file-read}
use gamecube_port.Dvd.Paths.Tests.{disc}

abbrev blank : ℕ → List (Option (List ℕ))
blank zero = []
blank (suc n) = none ∷ blank n

abbrev empty : Dvd
empty = record disc { test_files = blank 512; fst_max_entry_num = 0 }

abbrev content : List ℕ
content = 1 ∷ 2 ∷ 3 ∷ []

set_file-read_example :
    (fast_open (set_file true 5 content empty) 5
      ≡ some (record { state = 0; start_addr = 5; length = 3; entrynum = 5 }))
    × ((read (set_file true 5 content empty) 5 3 0).0 ≡ some content)
    × ((e len offset : ℕ)
        → e ≢ 5
        → (read (set_file true 5 content empty) e len offset).0 ≡ (read empty e len offset).0)
set_file-read_example =
    set_file-read empty 5 content refl refl (omega arith) (omega arith) (omega arith)
