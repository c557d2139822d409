-- ===== src/Connection/Drives.antt =====
-- mtpcache/ConnectionSync.cpp: the numbers that `mapNewDrive` gives and `unmapDrive` takes.
use mtpmount.Base.{
  ℕ, ◌+◌, ◌<◌, true, false, none, some, List, ◌==◌, ==_iff, if◌then◌else◌, get_elem?, ◌≡◌, ◌≢◌, ◌↔◌,
  refl, arith,
}
use mtpmount.Base.Int.{pos}
use mtpmount.Base.Text.{Text}
use mtpmount.Base.Assoc.{
  find_key, insert_key, find-insert, find-erase, find-same, HasDistinctKeys, HasDistinctKeys-insert,
  HasDistinctKeys-erase,
}
use mtpmount.Connection.{Connection, map_new_drive, unmap_drive}

same_id_iff : (i j : ℕ) → ((i == j) ≡ true) ↔ (i ≡ j)
same_id_iff i j = ground (arith, ==_iff i j)

module _ {D S F : Type 0} where
  -- The drives that are mapped have different numbers, all below the counter.
  pub record AreNumbered (c : Connection D S F) : Type 0 where
    pub distinct : HasDistinctKeys ◌==◌ c.my_drives
    pub below : (i : ℕ) → find_key ◌==◌ i c.my_drives ≢ none → i < c.my_drives_counter

  next_is_free :
      (c : Connection D S F) → AreNumbered c → find_key ◌==◌ c.my_drives_counter c.my_drives ≡ none
  next_is_free c a = ground (arith, a.below c.my_drives_counter)

  unmap_drive-keeps :
      (id : ℕ) (c : Connection D S F) → AreNumbered c → AreNumbered (unmap_drive id c).0
  unfolding unmap_drive
  unmap_drive-keeps id c a = record {
    distinct = ground (
      arith,
      a.distinct,
      HasDistinctKeys-erase ◌==◌ (λ i. i) same_id_iff id c.my_drives a.distinct,
    );
    below = λ j f.
        ground (arith, find-erase ◌==◌ (λ i. i) same_id_iff id j c.my_drives a.distinct, a.below j);
  }

  -- `mapNewDrive` of an index of the list gives a number under which no drive was mapped, maps the
  -- drive of that name under it, leaves every other number, and keeps the numbering.
  pub map_new_drive-AreNumbered :
      (names : List Text) (by_name : Text → D) (i : ℕ) (n : Text) (c : Connection D S F)
      → AreNumbered c
      → get_elem? names i ≡ some n
      → (c' : Connection D S F) × (id : ℕ) × (map_new_drive names by_name (pos i) c ≡ (c', pos id))
        × (find_key ◌==◌ id c.my_drives ≡ none)
        × ((j : ℕ)
            → find_key ◌==◌ j c'.my_drives
              ≡ (if id == j then some (by_name n) else find_key ◌==◌ j c.my_drives))
        × AreNumbered c'
  unfolding map_new_drive
  map_new_drive-AreNumbered names by_name i n c a h =
      let k = c.my_drives_counter in
      let inserted : (j : ℕ)
          → find_key ◌==◌ j (insert_key ◌==◌ k (by_name n) c.my_drives)
            ≡ (if k == j then some (by_name n) else find_key ◌==◌ j c.my_drives) =
        λ j. ground (
          arith,
          find-insert ◌==◌ (λ i. i) same_id_iff k j (by_name n) c.my_drives,
          next_is_free c a,
          ==_iff k j,
          find-same ◌==◌ (λ i. i) same_id_iff k j c.my_drives,
        ) in
      let c' : Connection D S F = record c {
        my_drives = insert_key ◌==◌ k (by_name n) c.my_drives;
        my_drives_counter = k + 1;
      } in
      (
        c',
        k,
        rw (h, map_new_drive) refl,
        next_is_free c a,
        inserted,
        record {
          distinct =
              HasDistinctKeys-insert ◌==◌ (λ i. i) same_id_iff k (by_name n) c.my_drives a.distinct;
          below = λ j f. ground (arith, inserted j, a.below j, ==_iff k j);
        },
      )

  -- `unmapDrive` succeeds exactly if a drive is mapped under the number; it leaves every other
  -- number, and keeps the numbering.
  pub unmap_drive-AreNumbered :
      (id j : ℕ) (c : Connection D S F)
      → AreNumbered c
      → ((unmap_drive id c).1 ≡ false ↔ find_key ◌==◌ id c.my_drives ≡ none)
        × ((find_key ◌==◌ j (unmap_drive id c).0.my_drives
              ≡ (if id == j then none else find_key ◌==◌ j c.my_drives))
            × AreNumbered (unmap_drive id c).0)
  unfolding unmap_drive
  unmap_drive-AreNumbered id j c a = (
    ground arith,
    (
      ground (
        arith,
        find-erase ◌==◌ (λ i. i) same_id_iff id j c.my_drives a.distinct,
        ==_iff id j,
        find-same ◌==◌ (λ i. i) same_id_iff id j c.my_drives,
      ),
      unmap_drive-keeps id c a,
    ),
  )
