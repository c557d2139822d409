-- ===== src/Cache/Shrink.antt =====
-- mtpcache/FileCache.cpp: operations that add no entry to the map.
use mtpmount.Base.{
  ℕ, ◌+◌, ◌-◌, ltb, Bool, true, false, ◌&&◌, Option, none, some, List, [], ◌∷◌, ◌++◌, ◌≡◌, inl, inr,
  refl, sym, ap, ◌∙◌, arith, if◌then◌else◌, Option-cases, Bool-cases, subst,
}
use mtpmount.Base.Text.{Text}
use mtpmount.Entry.{Entry, Request, is_dirty, write_access_clear}
use mtpmount.Cache.{
  FileCache, find_entry, cache_path, delete_cache_entry, drop_entry, push_single_file, destroy,
}
use mtpmount.Cache.TableKey.{Key, same_key}
use mtpmount.Cache.Rebind.{hashprov-drop_entry}
use mtpmount.Cache.Sync.{turns, sync_turn, time_turn, delete_loop, sync_all_dirties, sweep_reads}
use mtpmount.Cache.Sync.Turns.{
  Distinct, after_turn, find-turns_interrupted, Distinct-turns, find-drop_entry,
  Distinct-drop_entry,
}
use mtpmount.Cache.Sound.{Keeps, Keeps-refl, Shrinks, put_entry-Shrinks}
use mtpmount.Cache.Access.{Keeps-push}

Shrinks-refl : (c : FileCache) → Distinct c.cachemap → Shrinks c c
Shrinks-refl c d = record {
  still_distinct = d;
  provider_kept = refl;
  was_there = λ j f h. (f, (h, Keeps-refl f));
}

Shrinks-trans : (a b c : FileCache) → Shrinks a b → Shrinks b c → Shrinks a c
Shrinks-trans a b c s t = record {
  still_distinct = t.still_distinct;
  provider_kept = t.provider_kept ∙ s.provider_kept;
  was_there = λ j f h.
      let (e, (he, ke)) = t.was_there j f h in
      let (d, (hd, kd)) = s.was_there j e he in
      (
        d,
        (
          hd,
          record { name_kept = ke.name_kept ∙ kd.name_kept; key_kept = ke.key_kept ∙ kd.key_kept },
        ),
      );
}

-- What is found after an erasure was found before it.
found_in_rest :
    (b : Bool) (o : Option Entry) (f : Entry) → (if b then none else o) ≡ some f → o ≡ some f
found_in_rest true o f h = cc
found_in_rest false o f h = h

pub drop_entry-Shrinks :
    (k : Key) (c : FileCache) → Distinct c.cachemap → Shrinks c (drop_entry k c)
drop_entry-Shrinks k c d = record {
  still_distinct = Distinct-drop_entry k c d;
  provider_kept = hashprov-drop_entry k c;
  was_there = λ j f h.
      (f, (found_in_rest (same_key k j) _ f (sym (find-drop_entry k j c d) ∙ h), Keeps-refl f));
}

-- `deleteCacheEntry` leaves the map that `drop_entry` leaves.
delete_cache_entry-map :
    (k : Key) (c : FileCache)
    → ((delete_cache_entry k c).0.cachemap ≡ (drop_entry k c).cachemap)
      × ((delete_cache_entry k c).0.hashprov ≡ c.hashprov)
unfolding delete_cache_entry drop_entry destroy
delete_cache_entry-map k c = ground arith

pub delete_cache_entry-Shrinks :
    (k : Key) (c : FileCache) → Distinct c.cachemap → Shrinks c (delete_cache_entry k c).0
delete_cache_entry-Shrinks k c d =
    let (map_is, provider_is) = delete_cache_entry-map k c in
    let s = drop_entry-Shrinks k c d in
    record {
      still_distinct = subst Distinct (sym map_is) s.still_distinct;
      provider_kept = provider_is;
      was_there = λ j f h. s.was_there j f (ap (find_entry j) (sym map_is) ∙ h);
    }

pub delete_loop-Shrinks :
    (interrupted : ℕ → Bool) (i : ℕ) (ks : List Key) (c : FileCache)
    → Distinct c.cachemap
    → Shrinks c (delete_loop interrupted i ks c)
unfolding delete_loop
delete_loop-Shrinks interrupted i [] c d = Shrinks-refl c d
delete_loop-Shrinks interrupted i (k ∷ ks) c d =
    let first = drop_entry-Shrinks k c d in
    let rest = delete_loop-Shrinks interrupted (i + 1) ks (drop_entry k c) first.still_distinct in
    elim (Bool-cases (interrupted i)) [
      | inl stop ↦ rw stop first
      | inr go ↦ rw go (Shrinks-trans c (drop_entry k c) _ first rest)
    ]

after_turn-Keeps :
    (turn : Entry → Entry × List Request)
    → ((e : Entry) → Keeps e (turn e).0)
    → (o : Option Entry) (f : Entry) → after_turn turn o ≡ some f
    → (e : Entry) × ((o ≡ some e) × Keeps e f)
after_turn-Keeps turn keeps none f h = cc
after_turn-Keeps turn keeps (some e) f h =
    (e, (refl, subst (Keeps e) (let q : (turn e).0 ≡ f = cc in q) (keeps e)))

-- A loop over the map, with what it enqueues behind the requests.
turns-Shrinks :
    (turn : ℕ → Entry → Entry × List Request)
    → ((n : ℕ) (e : Entry) → Keeps e (turn n e).0)
    → (interrupted : ℕ → Bool) (i : ℕ) (c : FileCache) → Distinct c.cachemap
    → let r = turns turn interrupted i c.cachemap in
      Shrinks c (record c { cachemap = r.0; requests = c.requests ++ r.1 })
turns-Shrinks turn keeps interrupted i c d = record {
  still_distinct = Distinct-turns turn interrupted i c.cachemap d;
  provider_kept = refl;
  was_there = λ j f h. elim (find-turns_interrupted turn interrupted j i c.cachemap) [
    | inl same ↦ (f, (sym same ∙ h, Keeps-refl f))
    | inr (n, turned) ↦ after_turn-Keeps (turn n) (keeps n) _ f (sym turned ∙ h)
  ];
}

either_Keeps :
    (b : Bool) (e : Entry) (r : Entry × List Request)
    → Keeps e r.0
    → Keeps e (if b then r else (e, [])).0
either_Keeps true e r k = k
either_Keeps false e r k = Keeps-refl e

sync_turn-Keeps : (dir : Text) (e : Entry) → Keeps e (sync_turn dir e).0
unfolding sync_turn
sync_turn-Keeps dir e = either_Keeps (is_dirty e) e _ (Keeps-push (cache_path dir e) e)

time_turn-Keeps : (dir : Text) (now : ℕ) (e : Entry) → Keeps e (time_turn dir now e).0
unfolding time_turn
time_turn-Keeps dir now e =
    either_Keeps (is_dirty e && (write_access_clear e && ltb 15 (now - e.last_write))) e _
      (Keeps-push (cache_path dir e) e)

pub sync_all_dirties-Shrinks :
    (interrupted : ℕ → Bool) (c : FileCache)
    → Distinct c.cachemap
    → Shrinks c (sync_all_dirties interrupted c)
unfolding sync_all_dirties
sync_all_dirties-Shrinks interrupted c d =
    turns-Shrinks (λ _. sync_turn c.cache_base_dir) (λ _. sync_turn-Keeps c.cache_base_dir)
      interrupted 0 c d

pub sweep_reads-Shrinks :
    (interrupted : ℕ → Bool) (clock : ℕ → ℕ) (c : FileCache)
    → Distinct c.cachemap
    → Shrinks c (sweep_reads interrupted clock c).0
unfolding sweep_reads
sweep_reads-Shrinks interrupted clock c d =
    turns-Shrinks (λ i. time_turn c.cache_base_dir (clock i))
      (λ i. time_turn-Keeps c.cache_base_dir (clock i)) interrupted 0 c d

pub push_single_file-Shrinks :
    (k : Key) (c : FileCache) → Distinct c.cachemap → Shrinks c (push_single_file k c).0
unfolding push_single_file
push_single_file-Shrinks k c d = elim (Option-cases (find_entry k c.cachemap)) [
  | inl none_there ↦ rw (none_there, push_single_file) (Shrinks-refl c d)
  | inr (e, h) ↦
      rw (h, push_single_file)
        (put_entry-Shrinks k e _ _ c d h (Keeps-push (cache_path c.cache_base_dir e) e))
]
