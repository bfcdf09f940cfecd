-- ===== src/Si/Response.antt =====
-- The call that hands a response over.
use mathlib.Core.Path.{subst}
use gamecube_port.Base.{ℕ, ◌+◌, ◌*◌, ◌<◌, ◌≤◌, ◌^◌, ◌≡◌, refl, sym, ◌∙◌, ap, arith, Bool, true, ◌⊎◌}
use gamecube_port.GcMem.{Mem, Mapped, load_u32be, store_u32be, add32}
use gamecube_port.GcMem.Laws.{load_u32be-store_self, load_u32be-store_apart}
use gamecube_port.SdkState.{state_store}
use gamecube_port.OsInterrupts.{Ints, count_call, disable_interrupts, restore_interrupts}
use gamecube_port.Si.{
  Si, is_chan, has_response, valid_base, input_base, get_response, get_response_raw, hand_over,
  take_response, end_response, set_mem,
}

-- A word below the state page is not changed by what interrupts count there.
below_page :
    (m : Mem) (off v a : ℕ)
    → a + 4 ≤ 0x817FE000
    → off < 0x1000
    → load_u32be (state_store m off v) a ≡ load_u32be m a
below_page m off v a h l = load_u32be-store_apart m (add32 0x817FE000 off) a v (omega (arith, h, l))

below_count :
    (m : Mem) (off a : ℕ)
    → a + 4 ≤ 0x817FE000
    → off < 0x1000
    → load_u32be (count_call off m) a ≡ load_u32be m a
unfolding count_call
below_count m off a h l = below_page m off _ a h l

disable_keeps :
    (s : Ints) (a : ℕ)
    → a + 4 ≤ 0x817FE000
    → load_u32be ((disable_interrupts s).1.mem) a ≡ load_u32be s.mem a
unfolding disable_interrupts
disable_keeps s a h =
    below_page (count_call 0x44 s.mem) 0x40 0 a h (omega arith)
    ∙ below_count s.mem 0x44 a h (omega arith)

restore_keeps :
    (level : Bool) (s : Ints) (a : ℕ)
    → a + 4 ≤ 0x817FE000
    → load_u32be ((restore_interrupts level s).1.mem) a ≡ load_u32be s.mem a
unfolding restore_interrupts
restore_keeps level s a h =
    below_page (count_call 0x48 s.mem) 0x40 _ a h (omega arith)
    ∙ below_count s.mem 0x48 a h (omega arith)

-- The 48 bytes from the marks of the four buffers to their ends.
abbrev pub Buffers : Mem → Type 0
Buffers m = Mapped m valid_base 48

module _ (chan : ℕ) (few : chan < 4) where
  abbrev mark : ℕ
  mark = valid_base + chan * 4

  abbrev buffer : ℕ
  buffer = input_base + chan * 8

  -- The words that a response leaves in its buffer.
  abbrev arrived : Mem → (w0 w1 : ℕ) → Mem
  arrived m w0 w1 = store_u32be (store_u32be (store_u32be m buffer w0) (buffer + 4) w1) mark 1

  word : (m : Mem) (a : ℕ) → Buffers m → valid_base ≤ a → a + 4 ≤ valid_base + 48 → Mapped m a 4
  word m a h l u = (h.0, omega (arith, h, l), omega (arith, h, u), omega (arith, u))

  module _ (m : Mem) (h : Buffers m) (w0 w1 data_addr : ℕ) (small0 : w0 < 2 ^ 32)
      (small1 : w1 < 2 ^ 32) (there : Mapped m data_addr 8) (below : data_addr + 8 ≤ 0x817FE000)
      (away : (data_addr + 8 ≤ valid_base) ⊎ (valid_base + 48 ≤ data_addr)) where
    mark_seen : load_u32be (arrived m w0 w1) mark ≡ 1
    mark_seen =
        load_u32be-store_self (store_u32be (store_u32be m buffer w0) (buffer + 4) w1) mark 1
          (word m mark h (omega arith) (omega (arith, few))) (omega arith)

    -- The memory without the mark, and with the words at the caller's address.
    abbrev unmarked : Mem
    unmarked = store_u32be (arrived m w0 w1) mark 0

    first_word : load_u32be unmarked buffer ≡ w0
    first_word =
        load_u32be-store_apart (arrived m w0 w1) mark buffer 0 (omega (arith, few))
        ∙ load_u32be-store_apart (store_u32be (store_u32be m buffer w0) (buffer + 4) w1) mark buffer
            1 (omega (arith, few))
        ∙ load_u32be-store_apart (store_u32be m buffer w0) (buffer + 4) buffer w1 (omega arith)
        ∙ load_u32be-store_self m buffer w0 (word m buffer h (omega arith) (omega (arith, few)))
            small0

    second_word : load_u32be unmarked (buffer + 4) ≡ w1
    second_word =
        load_u32be-store_apart (arrived m w0 w1) mark (buffer + 4) 0 (omega (arith, few))
        ∙ load_u32be-store_apart (store_u32be (store_u32be m buffer w0) (buffer + 4) w1) mark
            (buffer + 4) 1 (omega (arith, few))
        ∙ load_u32be-store_self (store_u32be m buffer w0) (buffer + 4) w1
            (word m (buffer + 4) h (omega arith) (omega (arith, few))) small1

    abbrev handed : Mem
    handed = store_u32be (store_u32be unmarked data_addr w0) (data_addr + 4) w1

    take_some : take_response chan data_addr (arrived m w0 w1) ≡ (true, handed)
    unfolding take_response hand_over
    take_some =
        let e : add32 data_addr 4 ≡ data_addr + 4 = omega (arith, below) in
        rw (mark_seen, first_word, second_word, e) refl

    handed_words :
        (load_u32be handed data_addr ≡ w0)
        × (load_u32be handed (data_addr + 4) ≡ w1)
        × (load_u32be handed mark ≡ 0)
    handed_words =
        let part : Mapped m data_addr 4 =
          (there.0, omega (arith, there), omega (arith, there), omega (arith, there)) in
        let part4 : Mapped m (data_addr + 4) 4 =
          (there.0, omega (arith, there), omega (arith, there), omega (arith, there)) in
        let m1 = store_u32be unmarked data_addr w0 in
        (
          load_u32be-store_apart m1 (data_addr + 4) data_addr w1 (omega arith)
              ∙ load_u32be-store_self unmarked data_addr w0 part small0,
          load_u32be-store_self m1 (data_addr + 4) w1 part4 small1,
          load_u32be-store_apart m1 (data_addr + 4) mark w1 (omega (arith, few, away))
              ∙ load_u32be-store_apart unmarked data_addr mark w0 (omega (arith, few, away))
              ∙ load_u32be-store_self (arrived m w0 w1) mark 0
                  (word m mark h (omega arith) (omega (arith, few))) (omega arith),
        )

disable_Buffers : (s : Ints) → Buffers s.mem → Buffers ((disable_interrupts s).1.mem)
unfolding disable_interrupts count_call
disable_Buffers s h = h

disable_Mapped : (s : Ints) (a n : ℕ) → Mapped s.mem a n → Mapped ((disable_interrupts s).1.mem) a n
unfolding disable_interrupts count_call
disable_Mapped s a n h = h

raw_some :
    (chan : ℕ) (s : Si)
    → is_chan chan ≡ true
    → has_response (s.status_seed chan) ≡ true
    → get_response_raw chan s
      ≡ set_mem s (
          store_u32be
            (store_u32be
              (store_u32be s.ints.mem (input_base + chan * 8) (s.resp_seed chan).0)
              (input_base + chan * 8 + 4)
              (s.resp_seed chan).1)
            (valid_base + chan * 4)
            1)
unfolding get_response_raw
raw_some chan s e h = rw (e, h) refl

-- What a call leaves: the words at the caller's address, and no mark.
abbrev pub HandsOver : (chan data_addr w0 w1 : ℕ) → Bool × Si → Type 0
HandsOver chan data_addr w0 w1 (valid, s) =
    (valid ≡ true)
    × (load_u32be s.ints.mem data_addr ≡ w0)
    × (load_u32be s.ints.mem (data_addr + 4) ≡ w1)
    × (load_u32be s.ints.mem (valid_base + chan * 4) ≡ 0)

end_HandsOver :
    (chan data_addr w0 w1 : ℕ) (level : Bool) (s : Si) (m : Mem)
    → chan < 4
    → data_addr + 8 ≤ 0x817FE000
    → (load_u32be m data_addr ≡ w0)
      × (load_u32be m (data_addr + 4) ≡ w1)
      × (load_u32be m (valid_base + chan * 4) ≡ 0)
    → HandsOver chan data_addr w0 w1 (end_response level s (true, m))
unfolding end_response
end_HandsOver chan data_addr w0 w1 level s m few below (a, b, c) =
    let i = record s.ints { mem = m } in
    (
      refl,
      restore_keeps level i data_addr (omega (arith, below)) ∙ a,
      restore_keeps level i (data_addr + 4) (omega (arith, below)) ∙ b,
      restore_keeps level i (valid_base + chan * 4) (omega (arith, few)) ∙ c,
    )

-- A call on a channel that there is, by its parts.
abbrev inner : (chan : ℕ) → Si → Si
inner chan s = record s { ints = (disable_interrupts s.ints).1 }

abbrev ended : (chan data_addr : ℕ) → Bool → Si → Bool × Si
ended chan data_addr level s1 = end_response level s1 (take_response chan data_addr s1.ints.mem)

get_response_lem :
    (s : Si) (chan data_addr : ℕ)
    → is_chan chan ≡ true
    → get_response chan data_addr s
      ≡ ended chan data_addr ((disable_interrupts s.ints).0) (get_response_raw chan (inner chan s))
unfolding get_response
get_response_lem s chan data_addr e = rw e refl

-- If the status of a channel shows a response, a call hands its two words over to a mapped address
-- outside the buffers and the state page, and removes the mark.
pub get_response-HandsOver :
    (s : Si) (chan data_addr : ℕ)
    → chan < 4
    → has_response (s.status_seed chan) ≡ true
    → (s.resp_seed chan).0 < 2 ^ 32
    → (s.resp_seed chan).1 < 2 ^ 32
    → Buffers s.ints.mem
    → Mapped s.ints.mem data_addr 8
    → data_addr + 8 ≤ 0x817FE000
    → (data_addr + 8 ≤ valid_base) ⊎ (valid_base + 48 ≤ data_addr)
    → HandsOver chan data_addr
        (s.resp_seed chan).0
        (s.resp_seed chan).1
        (get_response chan data_addr s)
get_response-HandsOver s chan data_addr few ready small0 small1 h there below away =
    let valid : is_chan chan ≡ true = ground (arith, few) in
    let (w0, w1) = s.resp_seed chan in
    let i1 = (disable_interrupts s.ints).1 in
    let level = (disable_interrupts s.ints).0 in
    let raw = raw_some chan (inner chan s) valid ready in
    let hb = disable_Buffers s.ints h in
    let mapped = disable_Mapped s.ints data_addr 8 there in
    let s1 = set_mem (inner chan s) (arrived chan few i1.mem w0 w1) in
    let taken = take_some chan few i1.mem hb w0 w1 data_addr small0 small1 mapped below away in
    let words = handed_words chan few i1.mem hb w0 w1 data_addr small0 small1 mapped below away in
    subst (HandsOver chan data_addr w0 w1)
      (sym (
        get_response_lem s chan data_addr valid
        ∙ ap (ended chan data_addr level) raw
        ∙ ap (end_response level s1) taken))
      (end_HandsOver chan data_addr w0 w1 level s1
        (handed chan few i1.mem hb w0 w1 data_addr small0 small1 mapped below away) few below words)
