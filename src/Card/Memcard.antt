-- ===== src/Card/Memcard.antt =====
-- sdk_port/card/memcard_backend.c: two memory cards that are images in files of the host. A file is
-- its bytes, or nothing where there is none; malloc is taken to succeed.
pub mod Kept
mod Tests
use gamecube_port.Base.{
  ℕ, zero, suc, ◌+◌, ◌-◌, ◌*◌, ◌^◌, Bool, true, false, not, ◌&&◌, ◌||◌, Option, none, some, List,
  [], ◌∷◌, ◌++◌, ltb, leb, ◌==◌, if◌then◌else◌, length,
}
use gamecube_port.Base.Int.{slt32, sle32}
use gamecube_port.Dvd.Paths.{strcmp, drop}
use gamecube_port.Dvd.Files.{take}

-- `GcMemcard`. `data` is not null exactly if a card was inserted, and has `size` bytes.
pub record Memcard : Type 0 where
  pub inserted : Bool
  pub size : ℕ
  pub image : Option (List ℕ)
  pub is_dirty : Bool
  pub path : List ℕ

-- The two cards and the files of the host.
pub record Memcards : Type 0 where
  pub card : ℕ → Memcard
  pub file : List ℕ → Option (List ℕ)

abbrev pub max_size : ℕ
max_size = 32 * 1024 * 1024

abbrev pub path_size : ℕ
path_size = 512

abbrev pub no_card : Memcard
no_card = record { inserted = false; size = 0; image = none; is_dirty = false; path = [] }

abbrev pub set_card : Memcards → ℕ → Memcard → Memcards
set_card s chan c = record s { card = λ k. if chan == k then c else s.card k }

abbrev pub store_file : Memcards → List ℕ → List ℕ → Memcards
store_file s path bytes = record s { file = λ p. if strcmp path p then some bytes else s.file p }

-- `chan` is a signed number, as a bit pattern.
abbrev pub is_chan : ℕ → Bool
is_chan chan = not (slt32 chan 0 || sle32 2 chan)

-- `n` bytes 0xFF
abbrev pub blank : ℕ → List ℕ
blank zero = []
blank (suc n) = 0xFF ∷ blank n

-- A file opened for writing is emptied; `room` is nothing if it cannot be opened, and else how many
-- bytes the host writes of those asked for.
unfoldable pub write_file : Option ℕ → Memcards → List ℕ → List ℕ → Bool × Memcards
write_file none s path bytes = (false, s)
write_file (some room) s path bytes =
    (length (take room bytes) == length bytes, store_file s path (take room bytes))

-- The image in a file, or a new one, in a file that is created.
unfoldable pub load_from :
    Option (List ℕ) → Option ℕ → Memcards → List ℕ → (size : ℕ) → Bool × List ℕ × Memcards
unfolding write_file
load_from none room s path size =
    let (ok, s') = write_file room s path (blank size) in (ok, blank size, s')
load_from (some bytes) room s path size =
    let read = take size bytes in (true, read ++ blank (size - length read), s)

-- `load_or_create`: whether it succeeds, and the image.
unfoldable pub load_or_create : Option ℕ → Memcards → List ℕ → (size : ℕ) → Bool × List ℕ × Memcards
unfolding load_from
load_or_create room s path size = load_from (s.file path) room s path size

-- `gc_memcard_insert` of a path that is not null
unfoldable pub insert : Option ℕ → Memcards → (chan : ℕ) → List ℕ → (size : ℕ) → Bool × Memcards
unfolding load_or_create
insert room s chan path size =
    let kept = take (path_size - 1) path in
    let (ok, image, s') = load_or_create room (set_card s chan no_card) kept size in
    let c : Memcard = record {
      inserted = true;
      size = size;
      image = some image;
      is_dirty = false;
      path = kept;
    } in
    if not (is_chan chan)
    then (false, s)
    else if length path == 0
    then (false, s)
    else if size == 0
    then (false, s)
    else if ltb max_size size
    then (false, s)
    else if ok
    then (true, set_card s' chan c)
    else (false, set_card s' chan no_card)

-- `gc_memcard_eject`: what was not flushed is lost.
unfoldable pub eject : Memcards → ℕ → Memcards
eject s chan = if is_chan chan then set_card s chan no_card else s

-- `gc_memcard_is_inserted` and `gc_memcard_size`
unfoldable pub is_inserted : Memcards → ℕ → Bool
is_inserted s chan = if is_chan chan then (s.card chan).inserted else false

unfoldable pub card_size : Memcards → ℕ → ℕ
card_size s chan = if is_chan chan then (s.card chan).size else 0

-- Whether an access stays inside a card.
abbrev pub is_inside : Memcard → (off len : ℕ) → Bool
is_inside c off len = not (ltb c.size off || ltb (c.size - off) len)

-- `gc_memcard_read` to a buffer that is not null, of the card `c`: the bytes that are copied, or
-- nothing.
unfoldable pub read_with : Memcard → (chan off len : ℕ) → Option (List ℕ)
read_with c chan off len =
    let copied : Option (List ℕ) = elim c.image [
      | none ↦ none
      | some image ↦ some (take len (drop off image))
    ] in
    if is_chan chan && c.inserted && is_inside c off len then copied else none

unfoldable pub read_card : Memcards → (chan off len : ℕ) → Option (List ℕ)
unfolding read_with
read_card s chan off len = read_with (s.card chan) chan off len

-- `bytes` in the place of as many from `off` on
abbrev pub splice : List ℕ → (off : ℕ) → List ℕ → List ℕ
splice image zero bytes = bytes ++ drop (length bytes) image
splice [] (suc off) bytes = []
splice (x ∷ image) (suc off) bytes = x ∷ splice image off bytes

-- `gc_memcard_write` from a buffer that is not null, to the card `c`
unfoldable pub write_with : Memcard → Memcards → (chan off : ℕ) → List ℕ → Bool × Memcards
write_with c s chan off bytes =
    let written : Bool × Memcards = elim c.image [
      | none ↦ (false, s)
      | some image ↦ (
        true,
        set_card s chan (record c { image = some (splice image off bytes); is_dirty = true }),
      )
    ] in
    if is_chan chan && c.inserted && is_inside c off (length bytes) then written else (false, s)

unfoldable pub write_card : Memcards → (chan off : ℕ) → List ℕ → Bool × Memcards
unfolding write_with
write_card s chan off bytes = write_with (s.card chan) s chan off bytes

-- `gc_memcard_flush` of the card `c`
unfoldable pub flush_with : Memcard → Option ℕ → Memcards → (chan : ℕ) → Bool × Memcards
unfolding write_file
flush_with c room s chan =
    let saved : Bool × Memcards = elim c.image [
      | none ↦ (false, s)
      | some image ↦
          let (ok, s') = write_file room s c.path image in
          if not c.is_dirty
          then (true, s)
          else if ok
          then (true, set_card s' chan (record c { is_dirty = false }))
          else (false, s')
    ] in
    if is_chan chan && c.inserted then saved else (false, s)

unfoldable pub flush : Option ℕ → Memcards → (chan : ℕ) → Bool × Memcards
unfolding flush_with
flush room s chan = flush_with (s.card chan) room s chan

-- `gc_memcard_exi_dma` of a buffer that is not null: whether it succeeds, what it reads, and the
-- cards. Type 0 reads and type 1 writes.
unfoldable pub exi_dma :
    Memcards → (chan exi_addr : ℕ) → (buffer : List ℕ) → (type : ℕ) → Bool × List ℕ × Memcards
unfolding is_inserted read_card write_card
exi_dma s chan exi_addr buffer type =
    let read : Bool × List ℕ × Memcards = elim (read_card s chan exi_addr (length buffer)) [
      | none ↦ (false, buffer, s)
      | some bytes ↦ (true, bytes, s)
    ] in
    let (ok, s') = write_card s chan exi_addr buffer in
    if length buffer == 0
    then (false, buffer, s)
    else if not (is_inserted s chan)
    then (false, buffer, s)
    else if type == 0
    then read
    else if type == 1
    then (ok, buffer, s')
    else (false, buffer, s)
