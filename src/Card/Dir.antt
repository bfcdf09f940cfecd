-- ===== src/Card/Dir.antt =====
-- sdk_port/card/card_dir.c: the directory of a memory card, entries of 64 bytes in emulated RAM.
pub mod Names
pub mod Search
mod Tests
use gamecube_port.Base.{
  ℕ, zero, suc, ◌+◌, ◌-◌, ◌*◌, ◌^◌, Bool, true, false, not, ◌&&◌, ◌||◌, Option, none, some, ltb,
  leb, ◌==◌, if◌then◌else◌, bit_and,
}
use gamecube_port.Base.Int.{slt32, sle32}
use gamecube_port.GcMem.{Mem, load_u8, load_u16be, add32, mul32, sub32}
use gamecube_port.Card.{
  is_error, CardResult, ready, nocard, nofile, broken, noperm, limit, fatal_error,
}

abbrev pub off_gamename : ℕ
off_gamename = 0

abbrev pub off_company : ℕ
off_company = 4

abbrev pub off_filename : ℕ
off_filename = 8

abbrev pub off_permission : ℕ
off_permission = 52

abbrev pub off_startblock : ℕ
off_startblock = 54

abbrev pub off_length : ℕ
off_length = 56

abbrev pub dir_size : ℕ
dir_size = 64

abbrev pub filename_max : ℕ
filename_max = 32

abbrev pub max_file : ℕ
max_file = 127

-- `port_CARDDirControl`; `sectorSize` is an `int32_t`, kept as its bit pattern.
pub record DirControl : Type 0 where
  pub attached : Bool
  pub c_block : ℕ
  pub sector_size : ℕ
  pub dir_addr : ℕ
  pub fat_addr : ℕ
  pub game_name : ℕ → ℕ
  pub company : ℕ → ℕ
  pub disk_id_is_none : Bool

-- `port_CARDFileInfo`, without the channel, which nothing here reads; signed fields are bit patterns.
pub record FileInfo : Type 0 where
  pub file_no : ℕ
  pub offset : ℕ
  pub length : ℕ
  pub i_block : ℕ

-- The loop of `port_CARDCompareFileName` over `n` characters from the one numbered `i`; a C string
-- is a function from positions to bytes.
unfoldable pub compare_from : (n i name_addr : ℕ) → (ℕ → ℕ) → Mem → Bool
compare_from zero i name_addr file_name m = file_name i == 0
compare_from (suc n) i name_addr file_name m =
    let rest = compare_from n (i + 1) name_addr file_name m in
    if not (load_u8 m (add32 name_addr i) == file_name i)
    then false
    else if file_name i == 0
    then true
    else rest

-- `port_CARDCompareFileName`
unfoldable pub compare_file_name : (dir_entry_addr : ℕ) → (ℕ → ℕ) → Mem → Bool
unfolding compare_from
compare_file_name dir_entry_addr file_name m =
    compare_from filename_max 0 (add32 dir_entry_addr off_filename) file_name m

-- `memcmp` of `n` bytes of emulated RAM, from the one numbered `i`, with a host array.
unfoldable pub bytes_equal : (n i addr : ℕ) → (ℕ → ℕ) → Mem → Bool
bytes_equal zero i addr f m = true
bytes_equal (suc n) i addr f m = (load_u8 m (add32 addr i) == f i) && bytes_equal n (i + 1) addr f m

-- `port_CARDAccess`
unfoldable pub access : DirControl → (dir_entry_addr : ℕ) → Mem → CardResult
unfolding bytes_equal
access card ent m =
    if load_u8 m (add32 ent off_gamename) == 0xFF
    then nofile
    else if card.disk_id_is_none
    then ready
    else if bytes_equal 4 0 (add32 ent off_gamename) card.game_name m
        && bytes_equal 2 0 (add32 ent off_company) card.company m
    then ready
    else noperm

-- `port_CARDIsPublic`
unfoldable pub is_public : (dir_entry_addr : ℕ) → Mem → CardResult
is_public ent m =
    if load_u8 m (add32 ent off_gamename) == 0xFF
    then nofile
    else if not (bit_and (load_u8 m (add32 ent off_permission)) 0x04 == 0)
    then ready
    else noperm

-- The address of the entry of a file.
abbrev pub entry_addr : DirControl → ℕ → ℕ
entry_addr card file_no = add32 card.dir_addr (mul32 file_no dir_size)

-- The test that the loop of `port_CARDGetFileNo` makes of one entry.
unfoldable pub is_file : DirControl → (ℕ → ℕ) → Mem → ℕ → Bool
unfolding access compare_file_name
is_file card file_name m file_no =
    let ent = entry_addr card file_no in
    if is_error (access card ent m) then false else compare_file_name ent file_name m

-- The loop of `port_CARDGetFileNo` over `n` entries from the one numbered `file_no`.
unfoldable pub find_file : (n file_no : ℕ) → DirControl → (ℕ → ℕ) → Mem → Option ℕ
unfolding is_file
find_file zero file_no card file_name m = none
find_file (suc n) file_no card file_name m =
    let rest = find_file n (file_no + 1) card file_name m in
    if is_file card file_name m file_no then some file_no else rest

abbrev pub file_result : Option ℕ → CardResult × Option ℕ
file_result none = (nofile, none)
file_result (some i) = (ready, some i)

-- `port_CARDGetFileNo`; the number is what `*pfileNo` holds, `none` when it is not written.
unfoldable pub get_file_no : DirControl → (ℕ → ℕ) → Mem → CardResult × Option ℕ
unfolding find_file
get_file_no card file_name m =
    if not card.attached
    then (nocard, none)
    else file_result (find_file max_file 0 card file_name m)

-- `port_CARDIsValidBlockNo`
unfoldable pub dir_is_valid_block_no : DirControl → ℕ → Bool
dir_is_valid_block_no card i_block = leb 5 i_block && ltb i_block card.c_block

-- The walk along the chain in `port_CARDSeek`, to the sector of the offset `target`.
unfoldable pub walk_fat :
    (fuel : ℕ) → DirControl → (target : ℕ) → FileInfo → Mem → Option (CardResult × FileInfo)
unfolding dir_is_valid_block_no
walk_fat zero card target info m = none
walk_fat (suc fuel) card target info m =
    let info' = record info {
      offset = add32 info.offset card.sector_size;
      i_block = load_u16be m (add32 card.fat_addr (mul32 info.i_block 2));
    } in
    let rest = walk_fat fuel card target info' m in
    if not (slt32 info.offset (bit_and target (2 ^ 32 - 1 - sub32 card.sector_size 1)))
    then some (ready, record info { offset = target })
    else if not (dir_is_valid_block_no card info'.i_block)
    then some (broken, info')
    else rest

-- `port_CARDSeek`
unfoldable pub seek :
    (fuel : ℕ) → FileInfo → (length offset : ℕ) → DirControl → Mem → Option (CardResult × FileInfo)
unfolding dir_is_valid_block_no walk_fat
seek fuel info length offset card m =
    if not card.attached
    then some (nocard, info)
    else if not (dir_is_valid_block_no card info.i_block)
        || sle32 (mul32 card.c_block card.sector_size) info.offset
    then some (fatal_error, info)
    else let ent = entry_addr card info.file_no in
      let size = mul32 (load_u16be m (add32 ent off_length)) card.sector_size in
      let ent_start_block = load_u16be m (add32 ent off_startblock) in
      if sle32 size offset || slt32 size (add32 offset length)
      then some (limit, info)
      else let info1 = record info { length = length } in
        let info2 = record info1 { offset = 0; i_block = ent_start_block } in
        if slt32 offset info.offset
        then (if not (dir_is_valid_block_no card ent_start_block)
            then some (broken, info2)
            else walk_fat fuel card offset info2 m)
        else walk_fat fuel card offset info1 m
