-- ===== src/Cache/Sound.antt =====
-- mtpcache/FileCache.cpp: entries of the map, their keys and their local files.
use mtpmount.Base.{
  ℕ, Bool, true, false, Option, none, some, List, ◌∷◌, ◌≡◌, ◌≢◌, ◌⊎◌, inl, inr, refl, sym, ap, ◌∙◌,
  arith, if◌then◌else◌, Bool-cases, subst,
}
use mtpmount.Base.Text.{Text}
use mtpmount.Base.Assoc.{find-same, find-alter, HasDistinctKeys-alter}
use mtpmount.Base.Digits.{print_base}
use mtpmount.Hash.Distinct.{IsFresh}
use mtpmount.Entry.{Entry, Request}
use mtpmount.Cache.{FileCache, find_entry, put_entry}
use mtpmount.Cache.TableKey.{Key, same_key, same_key_iff, canon}
use mtpmount.Cache.Sync.Turns.{Distinct}

-- The drive and the path that the entry pulls from and pushes to.
abbrev pub entry_key : Entry → Key
entry_key e = record { drv = e.drv_id_on_device; filepath = e.path_on_device }

pub record IsSound (c : FileCache) : Type 0 where
  pub distinct : Distinct c.cachemap
  -- Entries of one local file have one key.
  pub own_file :
      (j k : Key) (e f : Entry)
      → find_entry j c.cachemap ≡ some e
      → find_entry k c.cachemap ≡ some f
      → e.path_in_cache ≡ f.path_in_cache
      → canon j ≡ canon k
  -- An entry is about the file of its key.
  pub own_path :
      (j : Key) (e : Entry) → find_entry j c.cachemap ≡ some e → canon (entry_key e) ≡ canon j
  -- A fresh name is not that of an entry.
  pub issued :
      (j : Key) (e : Entry) (hash : Text)
      → find_entry j c.cachemap ≡ some e
      → IsFresh hash c.hashprov.already_used
      → e.path_in_cache ≢ hash

-- What the operations of an entry leave as it is.
pub record Keeps (e f : Entry) : Type 0 where
  pub name_kept : f.path_in_cache ≡ e.path_in_cache
  pub key_kept : entry_key f ≡ entry_key e

-- The entries of the new cache are among those of the old one.
pub record Shrinks (c c' : FileCache) : Type 0 where
  pub still_distinct : Distinct c'.cachemap
  pub provider_kept : c'.hashprov ≡ c.hashprov
  pub was_there :
      (j : Key) (f : Entry)
      → find_entry j c'.cachemap ≡ some f
      → (e : Entry) × ((find_entry j c.cachemap ≡ some e) × Keeps e f)

pub IsSound-Shrinks : (c c' : FileCache) → Shrinks c c' → IsSound c → IsSound c'
IsSound-Shrinks c c' s v = record {
  distinct = s.still_distinct;
  own_file = λ j k e f he hf same.
      let (e0, (he0, ke)) = s.was_there j e he in
      let (f0, (hf0, kf)) = s.was_there k f hf in
      v.own_file j k e0 f0 he0 hf0 (sym ke.name_kept ∙ same ∙ kf.name_kept);
  own_path = λ j e he.
      let (e0, (he0, ke)) = s.was_there j e he in ap canon ke.key_kept ∙ v.own_path j e0 he0;
  issued = λ j e hash he fresh same.
      let (e0, (he0, ke)) = s.was_there j e he in
      v.issued j e0 hash he0 (subst (λ p. IsFresh hash p.already_used) s.provider_kept fresh)
        (sym ke.name_kept ∙ same);
}

pub Keeps-refl : (e : Entry) → Keeps e e
Keeps-refl e = record { name_kept = refl; key_kept = refl }

-- What a key finds after the object of an entry is changed.
find-put_entry :
    (k j : Key) (e f : Entry) (sent : List Request) (c : FileCache)
    → find_entry k c.cachemap ≡ some e
    → find_entry j (put_entry k (f, sent) c).cachemap
      ≡ (if same_key k j then some f else find_entry j c.cachemap)
unfolding put_entry
find-put_entry k j e f sent c h = ground (
  arith,
  find-alter same_key canon same_key_iff k j (λ _. f) c.cachemap,
  same_key_iff k j,
  find-same same_key canon same_key_iff k j c.cachemap,
)

-- A key of which one of two entries is found.
found_in_if :
    (b : Bool) (f g : Entry) (o : Option Entry)
    → (if b then some f else o) ≡ some g
    → ((b ≡ true) × (f ≡ g)) ⊎ ((b ≡ false) × (o ≡ some g))
found_in_if true f g o h = inl (refl, cc)
found_in_if false f g o h = inr (refl, h)

pub put_entry-Shrinks :
    (k : Key) (e f : Entry) (sent : List Request) (c : FileCache)
    → Distinct c.cachemap
    → find_entry k c.cachemap ≡ some e
    → Keeps e f
    → Shrinks c (put_entry k (f, sent) c)
put_entry-Shrinks k e f sent c d h keeps = record {
  still_distinct =
      unfold put_entry in HasDistinctKeys-alter same_key canon same_key_iff k (λ _. f) c.cachemap d;
  provider_kept = unfold put_entry in refl;
  was_there = λ j g found.
      elim (found_in_if (same_key k j) f g _ (sym (find-put_entry k j e f sent c h) ∙ found)) [
        | inl (same, is_f) ↦
            let at_j =
              sym (find-same same_key canon same_key_iff k j c.cachemap ((same_key_iff k j).0 same))
              ∙ h in
            (e, (at_j, subst (Keeps e) is_f keeps))
        | inr (other, old) ↦ (g, (old, Keeps-refl g))
      ];
}

-- A key of which an entry is added: what it finds is the entry, or was there.
abbrev pub Added : Key → Entry → FileCache → FileCache → Type 0
Added k e c c' =
    (j : Key)
    → find_entry j c'.cachemap ≡ (if same_key k j then some e else find_entry j c.cachemap)

-- A new entry with a fresh name.
pub IsSound-Added :
    (k : Key) (e : Entry) (h : ℕ) (c c' : FileCache)
    → IsSound c
    → Distinct c'.cachemap
    → Added k e c c'
    → canon (entry_key e) ≡ canon k
    → e.path_in_cache ≡ print_base 16 h
    → IsFresh e.path_in_cache c.hashprov.already_used
    → c'.hashprov.already_used ≡ h ∷ c.hashprov.already_used
    → IsSound c'
IsSound-Added k e h c c' v d added path name fresh used_is =
    let seen : (j : Key) (f : Entry)
        → find_entry j c'.cachemap ≡ some f
        → ((same_key k j ≡ true) × (e ≡ f))
          ⊎ ((same_key k j ≡ false) × (find_entry j c.cachemap ≡ some f)) =
      λ j f hf. found_in_if (same_key k j) e f _ (sym (added j) ∙ hf) in
    record {
      distinct = d;
      own_file = λ j l f g hf hg same. elim (seen j f hf) [
        | inl (sj, ef) ↦ elim (seen l g hg) [
          | inl (sl, eg) ↦ sym ((same_key_iff k j).0 sj) ∙ (same_key_iff k l).0 sl
          | inr (ol, old) ↦ absurd (
              v.issued l g e.path_in_cache old fresh
                (sym same ∙ ap (λ x. x.path_in_cache) (sym ef)))
        ]
        | inr (oj, old) ↦ elim (seen l g hg) [
          | inl (sl, eg) ↦
              absurd
                (v.issued j f e.path_in_cache old fresh (same ∙ ap (λ x. x.path_in_cache) (sym eg)))
          | inr (ol, old') ↦ v.own_file j l f g old old' same
        ]
      ];
      own_path = λ j f hf. elim (seen j f hf) [
        | inl (sj, ef) ↦ ap (λ x. canon (entry_key x)) (sym ef) ∙ path ∙ (same_key_iff k j).0 sj
        | inr (oj, old) ↦ v.own_path j f old
      ];
      issued = λ j f hash hf is_fresh same.
          let both : IsFresh hash (h ∷ c.hashprov.already_used) =
            subst (IsFresh hash) used_is is_fresh in
          elim (seen j f hf) [
            | inl (sj, ef) ↦ both.0 (sym same ∙ ap (λ x. x.path_in_cache) (sym ef) ∙ name)
            | inr (oj, old) ↦ v.issued j f hash old both.1 same
          ];
    }

-- The entry of one key becomes that of another one: a fresh name is still that of no entry.
abbrev pub Moved : Key → Key → Entry → FileCache → FileCache → Type 0
Moved kold knew f c c' =
    (j : Key)
    → find_entry j c'.cachemap ≡ (
        if same_key knew j
        then some f
        else if same_key kold j
        then none
        else find_entry j c.cachemap)

pub IsSound-Moved :
    (kold knew : Key) (e f : Entry) (c c' : FileCache)
    → IsSound c
    → Distinct c'.cachemap
    → find_entry kold c.cachemap ≡ some e
    → Moved kold knew f c c'
    → f.path_in_cache ≡ e.path_in_cache
    → canon (entry_key f) ≡ canon knew
    → c'.hashprov ≡ c.hashprov
    → IsSound c'
IsSound-Moved kold knew e f c c' v d he moved name path provider =
    let seen : (j : Key) (g : Entry)
        → find_entry j c'.cachemap ≡ some g
        → ((same_key knew j ≡ true) × (f ≡ g))
          ⊎ ((canon kold ≢ canon j) × (find_entry j c.cachemap ≡ some g)) =
      λ j g hg. elim (found_in_if (same_key knew j) f g _ (sym (moved j) ∙ hg)) [
        | inl new ↦ inl new
        | inr (o, old) ↦ elim (Bool-cases (same_key kold j)) [
          | inl gone ↦ absurd (cc (rw gone at old))
          | inr stays ↦ inr (ground (arith, same_key_iff kold j), rw stays at old)
        ]
      ] in
    let others : (j : Key) (g : Entry)
        → canon kold ≢ canon j
        → find_entry j c.cachemap ≡ some g
        → g.path_in_cache ≢ f.path_in_cache =
      λ j g ne old same. ne (v.own_file kold j e g he old (sym (same ∙ name))) in
    record {
      distinct = d;
      own_file = λ j l g i hg hi same. elim (seen j g hg) [
        | inl (sj, fg) ↦ elim (seen l i hi) [
          | inl (sl, fi) ↦ sym ((same_key_iff knew j).0 sj) ∙ (same_key_iff knew l).0 sl
          | inr (ne, old) ↦
              absurd (others l i ne old (sym same ∙ ap (λ x. x.path_in_cache) (sym fg)))
        ]
        | inr (ne, old) ↦ elim (seen l i hi) [
          | inl (sl, fi) ↦ absurd (others j g ne old (same ∙ ap (λ x. x.path_in_cache) (sym fi)))
          | inr (ne', old') ↦ v.own_file j l g i old old' same
        ]
      ];
      own_path = λ j g hg. elim (seen j g hg) [
        | inl (sj, fg) ↦ ap (λ x. canon (entry_key x)) (sym fg) ∙ path ∙ (same_key_iff knew j).0 sj
        | inr (ne, old) ↦ v.own_path j g old
      ];
      issued = λ j g hash hg is_fresh same.
          let fresh : IsFresh hash c.hashprov.already_used =
            subst (λ p. IsFresh hash p.already_used) provider is_fresh in
          elim (seen j g hg) [
            | inl (sj, fg) ↦
                v.issued kold e hash he fresh (sym name ∙ ap (λ x. x.path_in_cache) fg ∙ same)
            | inr (ne, old) ↦ v.issued j g hash old fresh same
          ];
    }
