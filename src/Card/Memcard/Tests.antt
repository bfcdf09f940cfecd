-- ===== src/Card/Memcard/Tests.antt =====
-- A card of four bytes on a host without files.
use gamecube_port.Base.{◌≡◌, refl, arith, [], ◌∷◌, none, some, true}
use gamecube_port.Card.Memcard.{Memcards, no_card, insert, eject, read_card, write_card, flush}
use gamecube_port.Card.Memcard.Kept.{insert-flush}

abbrev host : Memcards
host = record { card = λ k. no_card; file = λ p. none }

insert-flush_example :
    let s1 = (insert (some 4) host 1 (0x61 ∷ []) 4).1 in
    let (written, s2) = write_card s1 1 1 (7 ∷ 8 ∷ []) in
    let (flushed, s3) = flush (some 4) s2 1 in
    let s4 = eject s3 1 in
    (written ≡ true)
    × (flushed ≡ true)
    × (read_card s4 1 1 2 ≡ none)
    × (read_card (insert none s4 1 (0x61 ∷ []) 4).1 1 1 2 ≡ some (7 ∷ 8 ∷ []))
unfolding insert
insert-flush_example =
    insert-flush 1 (0x61 ∷ []) 4 refl (omega arith) (omega arith) (omega arith) 1 (7 ∷ 8 ∷ [])
      (omega arith) (some 4) none 4 host refl (omega arith)
