-- ===== src/Cache/Reachable.antt =====
-- mtpcache/FileCache.cpp: the operations of the cache as steps, and the caches that they lead to.
-- `dropped` is the beginning of `moveOrRenameInode`; a pull or a push that ends calls the callback of
-- its entry. The two locks of `generalTimeBasedSync` are two steps, and the second is one for any keys.
use mtpmount.Base.{
  ℕ, Bool, true, false, Option, some, List, [], ◌∷◌, ◌++◌, ◌≡◌, ◌≢◌, inl, inr, refl, sym, ap, ◌∙◌,
  arith, if◌then◌else◌, Option-cases, Bool-cases, subst, >>=-eq-some,
}
use mtpmount.Base.Text.{Text, backslash}
use mtpmount.Base.Assoc.{find_key}
use mtpmount.Path.{FsPath}
use mtpmount.Path.Order.{upper_cases}
use mtpmount.Entry.{
  Entry, Wait, get_read_access, get_write_access, end_read_access, end_write_access, pull_done,
  push_done, rename_entry,
}
use mtpmount.Cache.{
  FileCache, find_entry, put_entry, cache_path, cache_access, begin_access_by_file_name,
  end_file_access_by_name, delete_cache_entry, drop_entry, unsynced_cache_rebind, push_single_file,
  new_cache,
}
use mtpmount.Cache.TableKey.{Key, same_key, same_key_iff}
use mtpmount.Cache.Rebind.{find-unsynced_cache_rebind}
use mtpmount.Cache.Sync.{sync_all_dirties, sweep_reads, delete_loop}
use mtpmount.Cache.Sound.{IsSound, IsSound-Shrinks, put_entry-Shrinks, IsSound-Moved, entry_key}
use mtpmount.Cache.Access.{cache_access-IsSound, Keeps-access, Keeps-end, Keeps-done, Keeps-pulled}
use mtpmount.Cache.Shrink.{
  drop_entry-Shrinks, delete_cache_entry-Shrinks, sync_all_dirties-Shrinks, sweep_reads-Shrinks,
  delete_loop-Shrinks, push_single_file-Shrinks,
}

module _ (generator : Text → ℕ) (fuel : ℕ) where
  pub data Step (c : FileCache) : FileCache → Type 0 where
    access_begins :
        (k : Key) (write : Bool) (now : ℕ) {c' : FileCache} {w : Wait}
        → begin_access_by_file_name generator fuel k write now c ≡ some (c', w)
        → Step c c'
    access_ends :
        (k : Key) (write : Bool) (now : ℕ) {c' : FileCache}
        → end_file_access_by_name generator fuel k write now c ≡ some c'
        → Step c c'
    deleted : (k : Key) → Step c (delete_cache_entry k c).0
    dropped : (k : Key) → Step c (drop_entry k c)
    rebound :
        (oldpath newpath : FsPath) (drv : ℕ) {c' : FileCache} {found : Bool}
        → unsynced_cache_rebind oldpath newpath drv c ≡ some (c', found)
        → Step c c'
    file_pushed : (k : Key) → Step c (push_single_file k c).0
    dirties_pushed : (interrupted : ℕ → Bool) → Step c (sync_all_dirties interrupted c)
    swept : (interrupted : ℕ → Bool) (clock : ℕ → ℕ) → Step c (sweep_reads interrupted clock c).0
    swept_keys :
        (interrupted : ℕ → Bool) (keys : List Key) → Step c (delete_loop interrupted 0 keys c)
    pull_ended :
        (k : Key) (e : Entry) (ok : Bool)
        → find_entry k c.cachemap ≡ some e
        → Step c (put_entry k (pull_done ok e, []) c)
    push_ended :
        (k : Key) (e : Entry) (ok : Bool)
        → find_entry k c.cachemap ≡ some e
        → Step c (put_entry k (push_done ok e, []) c)

  pub data Reach (dir : Text) : FileCache → Type 0 where
    start : Reach dir (new_cache dir)
    later : {c c' : FileCache} → Reach dir c → Step c c' → Reach dir c'

  first_result :
      {B : Type 0} (c c' : FileCache) (a b : B)
      → ◌≡◌ {A = Option (FileCache × B)} (some (c, a)) (some (c', b))
      → c ≡ c'
  first_result c c' a b h = cc

  only_result : (c c' : FileCache) → some c ≡ some c' → c ≡ c'
  only_result c c' h = cc

  rebind_undefined :
      (oldpath newpath : FsPath) (drv : ℕ) (c : FileCache) (e : Entry)
      → find_entry (record { drv = drv; filepath = oldpath }) c.cachemap ≡ some e
      → same_key
          (record { drv = drv; filepath = oldpath })
          (record { drv = drv; filepath = newpath })
        ≡ true
      → (c' : FileCache) (found : Bool)
      → unsynced_cache_rebind oldpath newpath drv c ≢ some (c', found)
  unfolding unsynced_cache_rebind
  rebind_undefined oldpath newpath drv c e there one_key c' found h = ground arith

  append-cancel_left : (l m n : Text) → l ++ m ≡ l ++ n → m ≡ n
  append-cancel_left [] m n h = h
  append-cancel_left (x ∷ l) m n h = append-cancel_left l m n cc

  begin-IsSound :
      (k : Key) (write : Bool) (now : ℕ) (c c' : FileCache) (w : Wait)
      → begin_access_by_file_name generator fuel k write now c ≡ some (c', w)
      → IsSound c
      → IsSound c'
  unfolding begin_access_by_file_name
  begin-IsSound k write now c c' w h v =
      let ((c1, e), got, rest) = >>=-eq-some (cache_access generator fuel k now c) _ h in
      let (sound, there) = cache_access-IsSound generator fuel k now c c1 e v got in
      let file = cache_path c1.cache_base_dir e in
      let r = if write then get_write_access file now e else get_read_access file now e in
      subst IsSound (first_result (put_entry k r.0 c1) c' r.1 w rest) (
        IsSound-Shrinks c1 (put_entry k r.0 c1)
          (put_entry-Shrinks k e r.0.0 r.0.1 c1 sound.distinct there
            (Keeps-access file now write e))
          sound)

  end-IsSound :
      (k : Key) (write : Bool) (now : ℕ) (c c' : FileCache)
      → end_file_access_by_name generator fuel k write now c ≡ some c'
      → IsSound c
      → IsSound c'
  unfolding end_file_access_by_name
  end-IsSound k write now c c' h v =
      let ((c1, e), got, rest) = >>=-eq-some (cache_access generator fuel k now c) _ h in
      let (sound, there) = cache_access-IsSound generator fuel k now c c1 e v got in
      let ended = if write then end_write_access now e else end_read_access now e in
      subst IsSound (only_result (put_entry k (ended, []) c1) c' rest) (
        IsSound-Shrinks c1 (put_entry k (ended, []) c1)
          (put_entry-Shrinks k e ended [] c1 sound.distinct there (Keeps-end now write e)) sound)

  rebind-IsSound :
      (oldpath newpath : FsPath) (drv : ℕ) (c c' : FileCache) (found : Bool)
      → unsynced_cache_rebind oldpath newpath drv c ≡ some (c', found)
      → IsSound c
      → IsSound c'
  unfolding unsynced_cache_rebind
  rebind-IsSound oldpath newpath drv c c' found h v =
      let kold : Key = record { drv = drv; filepath = oldpath } in
      let knew : Key = record { drv = drv; filepath = newpath } in
      elim (Option-cases (find_entry kold c.cachemap)) [
        | inl nothing ↦
            subst IsSound (first_result c c' false found (rw (nothing, unsynced_cache_rebind) at h))
              v
        | inr (e, there) ↦ elim (Bool-cases (same_key kold knew)) [
          | inl one_key ↦ absurd (rebind_undefined oldpath newpath drv c e there one_key c' found h)
          | inr two_keys ↦
              let (c1, did, (provider, (distinct, moved))) =
                find-unsynced_cache_rebind oldpath newpath drv c e v.distinct there two_keys in
              subst IsSound (first_result c1 c' true found (sym did ∙ h)) (
                IsSound-Moved kold knew e (rename_entry newpath e) c c1 v distinct there moved
                  (unfold rename_entry in refl)
                  (unfold rename_entry in
                    ap (λ x. (x.0, upper_cases newpath)) (v.own_path kold e there))
                  provider)
        ]
      ]

  -- Every step keeps the invariant of the map.
  pub Step-IsSound : {c c' : FileCache} → Step c c' → IsSound c → IsSound c'
  Step-IsSound {c} (access_begins k write now h) v = begin-IsSound k write now c _ _ h v
  Step-IsSound {c} (access_ends k write now h) v = end-IsSound k write now c _ h v
  Step-IsSound {c} (deleted k) v = IsSound-Shrinks c _ (delete_cache_entry-Shrinks k c v.distinct) v
  Step-IsSound {c} (dropped k) v = IsSound-Shrinks c _ (drop_entry-Shrinks k c v.distinct) v
  Step-IsSound {c} (rebound oldpath newpath drv h) v = rebind-IsSound oldpath newpath drv c _ _ h v
  Step-IsSound {c} (file_pushed k) v =
      IsSound-Shrinks c _ (push_single_file-Shrinks k c v.distinct) v
  Step-IsSound {c} (dirties_pushed interrupted) v =
      IsSound-Shrinks c _ (sync_all_dirties-Shrinks interrupted c v.distinct) v
  Step-IsSound {c} (swept interrupted clock) v =
      IsSound-Shrinks c _ (sweep_reads-Shrinks interrupted clock c v.distinct) v
  Step-IsSound {c} (swept_keys interrupted keys) v =
      IsSound-Shrinks c _ (delete_loop-Shrinks interrupted 0 keys c v.distinct) v
  Step-IsSound {c} (pull_ended k e ok h) v =
      IsSound-Shrinks c _
        (put_entry-Shrinks k e (pull_done ok e) [] c v.distinct h (Keeps-pulled ok e)) v
  Step-IsSound {c} (push_ended k e ok h) v =
      IsSound-Shrinks c _
        (put_entry-Shrinks k e (push_done ok e) [] c v.distinct h (Keeps-done ok e)) v

  pub Reach-IsSound : {dir : Text} {c : FileCache} → Reach dir c → IsSound c
  unfolding new_cache find_key
  Reach-IsSound start = record {
    distinct = tt;
    own_file = λ j k e f he hf same. cc;
    own_path = λ j e h. cc;
    issued = λ j e hash h fresh same. cc;
  }
  Reach-IsSound (later r s) = Step-IsSound s (Reach-IsSound r)

  -- In every cache that operations lead to from an empty one, two keys whose entries have one local
  -- file are one key: no two files of the devices share a local copy.
  pub one_file_one_key :
      {dir : Text} {c : FileCache} (j k : Key) (e f : Entry)
      → Reach dir c
      → find_entry j c.cachemap ≡ some e
      → find_entry k c.cachemap ≡ some f
      → cache_path dir e ≡ cache_path dir f
      → same_key j k ≡ true
  one_file_one_key {dir = dir} j k e f r he hf same = (same_key_iff j k).1 (
      (Reach-IsSound r).own_file j k e f he hf
        (append-cancel_left (dir ++ backslash ∷ []) _ _ same))

  -- In every such cache the entry of a key pulls from and pushes to the file of the key.
  pub entry_of_key :
      {dir : Text} {c : FileCache} (k : Key) (e : Entry)
      → Reach dir c
      → find_entry k c.cachemap ≡ some e
      → same_key (entry_key e) k ≡ true
  entry_of_key k e r h = (same_key_iff (entry_key e) k).1 ((Reach-IsSound r).own_path k e h)
