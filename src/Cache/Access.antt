-- ===== src/Cache/Access.antt =====
-- mtpcache/FileCache.cpp: an entry that is created, and what the operations of an entry keep.
use mtpmount.Base.{
  ℕ, Bool, true, false, Option, none, some, ◌≡◌, inl, inr, refl, sym, ap, ◌∙◌, arith, if◌then◌else◌,
  Option-cases, subst, >>=-eq-some,
}
use mtpmount.Base.Text.{Text}
use mtpmount.Base.Assoc.{find-same, insert_key, find-insert, HasDistinctKeys-insert}
use mtpmount.Hash.{HashProvider, get_hash}
use mtpmount.Hash.Distinct.{IsFresh, Issued, get_hash-Issued, contains-IsFresh}
use mtpmount.Path.{full_path}
use mtpmount.Entry.{
  Entry, new_entry, get_read_access, get_write_access, end_read_access, end_write_access,
  get_access, async_pull, async_push, push_if_dirty, pull_done, push_done,
}
use mtpmount.Cache.{FileCache, find_entry, create_cache_entry, cache_access}
use mtpmount.Cache.TableKey.{Key, same_key, same_key_iff, canon}
use mtpmount.Cache.Sound.{IsSound, Keeps, Added, IsSound-Added}

abbrev pub IsCreated : Key → FileCache → FileCache → Entry → Type 0
IsCreated k c c' e = IsSound c' × (find_entry k c'.cachemap ≡ some e)

-- Of equal results the parts are equal.
results :
    (c c' : FileCache) (e f : Entry)
    → ◌≡◌ {A = Option (FileCache × Entry)} (some (c, e)) (some (c', f))
    → (c ≡ c') × (e ≡ f)
results c c' e f h = (cc, cc)

IsCreated-equal :
    (k : Key) (c c1 c' : FileCache) (e f : Entry)
    → IsCreated k c c1 e
    → ◌≡◌ {A = Option (FileCache × Entry)} (some (c1, e)) (some (c', f))
    → IsCreated k c c' f
IsCreated-equal k c c1 c' e f (sound, found) h =
    let (same_c, same_e) = results c1 c' e f h in
    (
      subst IsSound same_c sound,
      subst (λ x. find_entry k x.cachemap ≡ some f) same_c (found ∙ ap some same_e),
    )

-- The cache with a new entry.
abbrev with_entry : Key → Entry → HashProvider → FileCache → FileCache
with_entry k e q c = record c { cachemap = insert_key same_key k e c.cachemap; hashprov = q }

with_entry-IsCreated :
    (k : Key) (hash : Text) (now : ℕ) (q : HashProvider) (c : FileCache)
    → IsSound c
    → find_entry k c.cachemap ≡ none
    → Issued c.hashprov hash q
    → let e = new_entry k.filepath k.drv hash now in IsCreated k c (with_entry k e q c) e
unfolding new_entry
with_entry-IsCreated k hash now q c v free (h, printed, unused, taken) =
    let e = new_entry k.filepath k.drv hash now in
    let added : Added k e c (with_entry k e q c) = λ j. ground (
      arith,
      find-insert same_key canon same_key_iff k j e c.cachemap,
      same_key_iff k j,
      find-same same_key canon same_key_iff k j c.cachemap,
    ) in
    (
      IsSound-Added k e h c (with_entry k e q c) v
          (HasDistinctKeys-insert same_key canon same_key_iff k e c.cachemap v.distinct) added refl
          printed
          (subst (λ t. IsFresh t c.hashprov.already_used) (sym printed)
            (contains-IsFresh c.hashprov.already_used h unused))
          taken,
      ground (arith, added k, same_key_iff k k),
    )

module _ (generator : Text → ℕ) (fuel : ℕ) where
  create_cache_entry-IsSound :
      (k : Key) (now : ℕ) (c c' : FileCache) (e : Entry)
      → IsSound c
      → create_cache_entry generator fuel k now c ≡ some (c', e)
      → IsCreated k c c' e
  unfolding create_cache_entry
  create_cache_entry-IsSound k now c c' e v made = elim (Option-cases (find_entry k c.cachemap)) [
    | inr (f, h) ↦ IsCreated-equal k c c c' f e (v, h) (rw (h, create_cache_entry) at made)
    | inl h ↦
        let ((hash, q), got, rest) =
          >>=-eq-some (get_hash generator fuel (full_path k.filepath) c.hashprov) _
            (rw (h, create_cache_entry) at made) in
        let issued = get_hash-Issued generator fuel (full_path k.filepath) c.hashprov q hash got in
        IsCreated-equal k c _ c' _ e (with_entry-IsCreated k hash now q c v h issued) rest
  ]

  pub cache_access-IsSound :
      (k : Key) (now : ℕ) (c c' : FileCache) (e : Entry)
      → IsSound c
      → cache_access generator fuel k now c ≡ some (c', e)
      → IsCreated k c c' e
  unfolding cache_access
  cache_access-IsSound k now c c' e v made = elim (Option-cases (find_entry k c.cachemap)) [
    | inr (f, h) ↦ IsCreated-equal k c c c' f e (v, h) (rw (h, cache_access) at made)
    | inl h ↦ create_cache_entry-IsSound k now c c' e v (rw (h, cache_access) at made)
  ]

-- The operations of an entry keep its name, its drive and its path.
pub Keeps-push : (file : Text) (e : Entry) → Keeps e (push_if_dirty file e).0
unfolding push_if_dirty async_push
Keeps-push file e = record { name_kept = ground arith; key_kept = ground arith }

pub Keeps-access :
    (file : Text) (now : ℕ) (write : Bool) (e : Entry)
    → Keeps e ((if write then get_write_access file now e else get_read_access file now e).0.0)
unfolding get_write_access get_read_access get_access async_pull
Keeps-access file now true e = record { name_kept = ground arith; key_kept = ground arith }
Keeps-access file now false e = record { name_kept = ground arith; key_kept = ground arith }

pub Keeps-end :
    (now : ℕ) (write : Bool) (e : Entry)
    → Keeps e (if write then end_write_access now e else end_read_access now e)
unfolding end_write_access end_read_access
Keeps-end now true e = record { name_kept = refl; key_kept = refl }
Keeps-end now false e = record { name_kept = refl; key_kept = refl }

pub Keeps-done : (ok : Bool) (e : Entry) → Keeps e (push_done ok e)
unfolding push_done
Keeps-done ok e = record { name_kept = ground arith; key_kept = ground arith }

pub Keeps-pulled : (ok : Bool) (e : Entry) → Keeps e (pull_done ok e)
unfolding pull_done
Keeps-pulled ok e = record { name_kept = refl; key_kept = refl }
