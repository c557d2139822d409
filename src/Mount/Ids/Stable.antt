-- ===== src/Mount/Ids/Stable.antt =====
-- mtpmount/MountCommands.cpp: what the numbers of storages stand for.
use mtpmount.Base.{
  ℕ, zero, suc, ◌<◌, ◌≤◌, ◌^◌, ◌&&◌, true, false, some, List, [], ◌∷◌, ◌++◌, ◌≡◌, ◌≢◌, ◌↔◌, refl,
  ap, sym, subst, ◌∙◌, arith, length, get_elem?, length-append,
}
use mtpmount.Base.Text.{Text, backslash, eq_text, eq_text→eq, lt_text_irrefl, lt_text_total}
use mtpmount.Base.Digits.{print_base, print_base-AreDigits}
use mtpmount.Base.Strto.{strto-print_base}
use mtpmount.Base.Assoc.{find_key, find-insert}
use mtpmount.Mount.Ids.{
  DevStorageId, Ids, joined, same_id, to_storage_enum, to_storage_id, stoul, decide_id_parameter,
  value, decided,
}

same_id→joined : (a b : DevStorageId) → same_id a b ≡ true → joined a ≡ joined b
same_id→joined a b h =
    eq_text→eq (joined a) (joined b) (ground (arith, lt_text_total (joined a) (joined b)))

same_id_iff : (a b : DevStorageId) → (same_id a b ≡ true) ↔ (joined a ≡ joined b)
same_id_iff a b = (same_id→joined a b, λ e. rw (e, lt_text_irrefl (joined b)) refl)

-- The number of a storage that has one is in range, and leads to that storage, up to its joined name.
pub record AreStored (s : Ids) : Type 0 where
  pub stored :
      (id : DevStorageId) (n : ℕ)
      → find_key same_id id s.idset ≡ some n
      → (n < length s.idvector) × (joined (to_storage_id n s) ≡ joined id)

get-append-left :
    {A : Type 0} (xs ys : List A) (n : ℕ) → n < length xs → get_elem? (xs ++ ys) n ≡ get_elem? xs n
get-append-left [] ys n h = absurd (omega arith)
get-append-left (x ∷ xs) ys zero h = refl
get-append-left (x ∷ xs) ys (suc n) h = get-append-left xs ys n (omega arith)

get-append-end : {A : Type 0} (xs : List A) (y : A) → get_elem? (xs ++ y ∷ []) (length xs) ≡ some y
get-append-end [] y = refl
get-append-end (x ∷ xs) y = get-append-end xs y

module _ (id : DevStorageId) (s : Ids) (a : AreStored s) where
  -- The number in the new state.
  found : find_key same_id id (to_storage_enum id s).0.idset ≡ some (to_storage_enum id s).1
  unfolding to_storage_enum
  found = ground (
    arith,
    find-insert same_id joined same_id_iff id id (length s.idvector) s.idset,
    same_id_iff id id,
  )

  kept :
      (n : ℕ) → n < length s.idvector → to_storage_id n (to_storage_enum id s).0 ≡ to_storage_id n s
  unfolding to_storage_enum to_storage_id
  kept n h = ground (arith, get-append-left s.idvector (id ∷ []) n h)

  grown : length s.idvector ≤ length (to_storage_enum id s).0.idvector
  unfolding to_storage_enum
  grown = ground (arith, length-append s.idvector (id ∷ []))

  to_storage_enum-AreStored : AreStored (to_storage_enum id s).0
  unfolding to_storage_enum to_storage_id
  to_storage_enum-AreStored = record {
    stored = λ j n h. ground (
      arith,
      a.stored j n,
      find-insert same_id joined same_id_iff id j (length s.idvector) s.idset,
      length-append s.idvector (id ∷ []),
      get-append-left s.idvector (id ∷ []) n,
      get-append-end s.idvector id,
      same_id→joined id j,
    );
  }

-- The number that a storage gets leads to that storage, up to its joined name; asking again gives
-- the same number and changes nothing; and every number that was given before leads where it led.
pub to_storage_id-to_storage_enum :
    (id : DevStorageId) (s : Ids)
    → AreStored s
    → (s' : Ids) × (n : ℕ) × (to_storage_enum id s ≡ (s', n))
      × (joined (to_storage_id n s') ≡ joined id)
      × (to_storage_enum id s' ≡ (s', n))
      × ((k : ℕ) → k < length s.idvector → to_storage_id k s' ≡ to_storage_id k s)
      × AreStored s'
unfolding to_storage_enum
to_storage_id-to_storage_enum id s a =
    let kept_all = to_storage_enum-AreStored id s a in
    (
      (to_storage_enum id s).0,
      (to_storage_enum id s).1,
      refl,
      (kept_all.stored id (to_storage_enum id s).1 (found id s a)).1,
      again (to_storage_enum id s).0 (found id s a),
      kept id s a,
      kept_all,
    )
  where
    again : (t : Ids) {n : ℕ} → find_key same_id id t.idset ≡ some n → to_storage_enum id t ≡ (t, n)
    again t h = rw (h, to_storage_enum) refl

stoul-print_base : (n : ℕ) → n < 2 ^ 32 → stoul (print_base 10 n) ≡ value n
unfolding stoul
stoul-print_base n h = ground (arith, strto-print_base n)

joined-IsNamed :
    (c s d u : Text)
    → c ++ backslash ∷ s ≡ d ++ backslash ∷ u
    → d ≢ []
    → (eq_text c [] && eq_text s []) ≡ false
joined-IsNamed (x ∷ c) s d u e named = refl
joined-IsNamed [] (x ∷ s) d u e named = refl
joined-IsNamed [] [] [] u e named = absurd (named refl)
joined-IsNamed [] [] (x ∷ d) u e named =
    absurd (omega (arith, ap length e, length-append d (backslash ∷ u)))

decide_id_parameter-value :
    (d : ℕ) (r : Text) (s : Ids) (n : ℕ)
    → stoul (d ∷ r) ≡ value n
    → (eq_text (to_storage_id n s).connection [] && eq_text (to_storage_id n s).storage []) ≡ false
    → decide_id_parameter (b'#' ∷ d ∷ r) s ≡ decided (to_storage_id n s)
unfolding decide_id_parameter
decide_id_parameter-value d r s n read named = ground arith

decide_id_parameter-number :
    (s : Ids) (n : ℕ)
    → n < 2 ^ 32
    → (eq_text (to_storage_id n s).connection [] && eq_text (to_storage_id n s).storage []) ≡ false
    → decide_id_parameter (b'#' ∷ print_base 10 n) s ≡ decided (to_storage_id n s)
decide_id_parameter-number s n h named =
    let (d, r, e, all) = print_base-AreDigits n in
    let read : stoul (d ∷ r) ≡ value n = sym (ap stoul e) ∙ stoul-print_base n h in
    rw e (decide_id_parameter-value d r s n read named)

-- The parameter `#` with the number that a storage has got decides for that storage, up to its
-- joined name, if the name of its device is not empty and there are fewer than 2^32 numbers.
pub decide_id_parameter-to_storage_enum :
    (id : DevStorageId) (s s' : Ids) (n : ℕ)
    → AreStored s
    → id.connection ≢ []
    → to_storage_enum id s ≡ (s', n)
    → length s'.idvector ≤ 2 ^ 32
    → (id' : DevStorageId) × (decide_id_parameter (b'#' ∷ print_base 10 n) s' ≡ decided id')
      × (joined id' ≡ joined id)
decide_id_parameter-to_storage_enum id s s' n a named made small =
    let (t, k, made', leads, again, old, kept_all) = to_storage_id-to_storage_enum id s a in
    let same : ◌≡◌ {A = Ids × ℕ} (t, k) (s', n) = sym made' ∙ made in
    let leads' : joined (to_storage_id n s') ≡ joined id =
      subst (λ r. joined (to_storage_id r.1 r.0) ≡ joined id) same leads in
    let below : n < length s'.idvector =
      subst (λ r. r.1 < length r.0.idvector) made
        ((to_storage_enum-AreStored id s a).stored id (to_storage_enum id s).1 (found id s a)).0 in
    (
      to_storage_id n s',
      decide_id_parameter-number s' n (omega (arith, below, small)) (
          joined-IsNamed (to_storage_id n s').connection (to_storage_id n s').storage id.connection
            id.storage leads' named),
      leads',
    )
