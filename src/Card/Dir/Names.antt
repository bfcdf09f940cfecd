-- ===== src/Card/Dir/Names.antt =====
-- The comparison of file names is the equality of C strings of at most 32 characters.
use gamecube_port.Base.{
  ℕ, zero, suc, ◌+◌, ◌≤◌, ◌<◌, ◌≡◌, ◌≢◌, ◌↔◌, arith, true, ◌==◌, Bool-cases, inl, inr,
}
use gamecube_port.GcMem.{Mem, load_u8, add32}
use gamecube_port.Card.Dir.{compare_from, compare_file_name, off_filename, filename_max}

-- From the character numbered `i` on, the entry's field of `n` more characters and the C string hold
-- the same string, which ends at `k`: either at a zero byte or at the end of the field.
pub record SameName (n i name_addr : ℕ) (file_name : ℕ → ℕ) (m : Mem) : Type 0 where
  pub stop : ℕ
  pub from : i ≤ stop
  pub within : stop ≤ i + n
  pub zero_at : file_name stop ≡ 0
  pub same :
      (j : ℕ) → i ≤ j → j < stop → (load_u8 m (add32 name_addr j) ≡ file_name j) × (file_name j ≢ 0)
  pub ends : stop < i + n → load_u8 m (add32 name_addr stop) ≡ 0

module _ (name_addr : ℕ) (file_name : ℕ → ℕ) (m : Mem) where
  compare_from-true :
      (n i : ℕ) → compare_from n i name_addr file_name m ≡ true → SameName n i name_addr file_name m
  unfolding compare_from
  compare_from-true zero i h = record {
    stop = i;
    from = omega arith;
    within = omega arith;
    zero_at = ground (arith, h);
    same = λ j a b. absurd (omega arith);
    ends = λ l. absurd (omega arith);
  }
  compare_from-true (suc n) i h =
      let byte : load_u8 m (add32 name_addr i) ≡ file_name i = ground (arith, h) in
      elim (Bool-cases (file_name i == 0)) [
        | inl z ↦ record {
          stop = i;
          from = omega arith;
          within = omega arith;
          zero_at = ground (arith, z);
          same = λ j a b. absurd (omega arith);
          ends = λ l. ground (arith, z, byte);
        }
        | inr z ↦
            let nonzero : file_name i ≢ 0 = ground (arith, z) in
            let ih = compare_from-true n (i + 1) (ground (arith, h, z)) in
            record {
              stop = ih.stop;
              from = omega (arith, ih.from);
              within = omega (arith, ih.within);
              zero_at = ih.zero_at;
              same = λ j a b. grind (arith, byte, nonzero, ih.same j);
              ends = λ l. ih.ends (omega (arith, l));
            }
      ]

  true-compare_from :
      (n i : ℕ) → SameName n i name_addr file_name m → compare_from n i name_addr file_name m ≡ true
  unfolding compare_from
  true-compare_from zero i s =
      let here : s.stop ≡ i = omega (arith, s.from, s.within) in grind (arith, here, s.zero_at)
  true-compare_from (suc n) i s = elim (Bool-cases (file_name i == 0)) [
    | inl z ↦
        let zero_here : file_name i ≡ 0 = ground (arith, z) in
        let here : s.stop ≡ i = ground (arith, zero_here, s.same i, s.from) in
        let byte : load_u8 m (add32 name_addr i) ≡ 0 = grind (arith, here, s.ends) in
        ground (arith, zero_here, byte)
    | inr z ↦
        let nonzero : file_name i ≢ 0 = ground (arith, z) in
        let more : i < s.stop = grind (arith, nonzero, s.from, s.zero_at) in
        let ih = true-compare_from n (i + 1) (record {
          stop = s.stop;
          from = omega (arith, more);
          within = omega (arith, s.within);
          zero_at = s.zero_at;
          same = λ j a b. s.same j (omega arith) b;
          ends = λ l. s.ends (omega (arith, l));
        }) in
        ground (arith, nonzero, s.same i, more, ih)
  ]

-- `port_CARDCompareFileName` answers true exactly when the entry's name field of 32 characters and
-- the C string hold the same string, which ends at its zero byte or at the end of the field.
pub compare_file_name_iff :
    (ent : ℕ) (file_name : ℕ → ℕ) (m : Mem)
    → (compare_file_name ent file_name m ≡ true)
      ↔ SameName filename_max 0 (add32 ent off_filename) file_name m
unfolding compare_file_name
compare_file_name_iff ent file_name m = (
  compare_from-true (add32 ent off_filename) file_name m 32 0,
  true-compare_from (add32 ent off_filename) file_name m 32 0,
)
