-- ===== src/Provider/Counts.antt =====
-- mtpaccess/ConnectionProvider.cpp: the counts of users of the open connections.
use mtpmount.Base.{
  ℕ, zero, suc, ◌+◌, ◌-◌, Option, none, some, List, ◌≡◌, ◌≢◌, refl, ap, subst, arith, if◌then◌else◌,
  Option-cases, inl, inr, or_else, ◌&&◌, is_some, get_elem?,
}
use mtpmount.Base.Text.{Text, eq_text, eq_text_iff}
use mtpmount.Base.Assoc.{
  find_key, erase_key, insert_key, alter_key, find-insert, find-alter, find-erase, HasDistinctKeys,
  HasDistinctKeys-insert, HasDistinctKeys-alter, HasDistinctKeys-erase,
}
use mtpmount.Provider.{
  Manager, Provider, open_guid, open_connection_to_device, close_connection, refresh, read_devices,
  count_devices, refresh_device_list,
}

-- How many clients a connection has: 0 if it is not open.
abbrev pub users : Text → Provider → ℕ
users guid p = or_else (find_key eq_text guid p.available_connections) 0

-- A device has one connection at most, and a connection that is open has a user.
pub record AreUsed (p : Provider) : Type 0 where
  pub distinct : HasDistinctKeys eq_text p.available_connections
  pub used : (guid : Text) → find_key eq_text guid p.available_connections ≢ some 0

module _ (guid g : Text) (p : Provider) (a : AreUsed p) where
  alter_users :
      (f : ℕ → ℕ)
      → find_key eq_text g (alter_key eq_text guid f p.available_connections)
        ≡ (elim (find_key eq_text g p.available_connections) [
          | some n ↦ if eq_text guid g then some (f n) else some n
          | none ↦ none
        ])
  alter_users f = find-alter eq_text (λ t. t) eq_text_iff guid g f p.available_connections

  insert_users :
      find_key eq_text g (insert_key eq_text guid 1 p.available_connections)
      ≡ (elim (find_key eq_text g p.available_connections) [
        | some n ↦ some n
        | none ↦ if eq_text guid g then some 1 else none
      ])
  insert_users = find-insert eq_text (λ t. t) eq_text_iff guid g 1 p.available_connections

  erase_users :
      (f : ℕ → ℕ)
      → find_key eq_text g
          (erase_key eq_text guid (alter_key eq_text guid f p.available_connections))
        ≡ (if eq_text guid g then none else find_key eq_text g p.available_connections)
  erase_users f = ground (
    arith,
    alter_users f,
    find-erase eq_text (λ t. t) eq_text_iff guid g
        (alter_key eq_text guid f p.available_connections)
        (HasDistinctKeys-alter eq_text (λ t. t) eq_text_iff guid f p.available_connections
          a.distinct),
  )

  -- Opening.
  open_users :
      (m : Manager)
      → users g (open_guid m guid p).0
        ≡ (if (eq_text guid g && is_some (open_guid m guid p).1) then users g p + 1 else users g p)
  unfolding open_guid
  open_users m = ground (arith, alter_users (λ n. n + 1), insert_users, eq_text_iff guid g)

  close_users :
      users g (close_connection guid p) ≡ (if eq_text guid g then users g p - 1 else users g p)
  unfolding close_connection
  close_users =
      ground (arith, alter_users (λ n. n - 1), erase_users (λ n. n - 1), eq_text_iff guid g)

module _ (p : Provider) (a : AreUsed p) where
  open_guid-AreUsed : (m : Manager) (guid : Text) → AreUsed (open_guid m guid p).0
  unfolding open_guid
  open_guid-AreUsed m guid = record {
    distinct = ground (
      arith,
      a.distinct,
      HasDistinctKeys-alter eq_text (λ t. t) eq_text_iff guid (λ n. n + 1) p.available_connections
          a.distinct,
      HasDistinctKeys-insert eq_text (λ t. t) eq_text_iff guid 1 p.available_connections a.distinct,
    );
    used =
        λ g. ground (arith, a.used g, alter_users guid g p a (λ n. n + 1), insert_users guid g p a);
  }

  -- Closing a connection keeps the numbers of users above 0.
  close_connection-AreUsed : (guid : Text) → AreUsed (close_connection guid p)
  unfolding close_connection
  close_connection-AreUsed guid =
      let alter_distinct =
        HasDistinctKeys-alter eq_text (λ t. t) eq_text_iff guid (λ n. n - 1) p.available_connections
          a.distinct in
      record {
        distinct = ground (
          arith,
          a.distinct,
          alter_distinct,
          HasDistinctKeys-erase eq_text (λ t. t) eq_text_iff guid
              (alter_key eq_text guid (λ n. n - 1) p.available_connections) alter_distinct,
        );
        used = λ g. ground (
          arith,
          a.used g,
          eq_text_iff guid g,
          alter_users guid g p a (λ n. n - 1),
          erase_users guid g p a (λ n. n - 1),
        );
      }

opened :
    (m : Manager) (i : ℕ) (p p' : Provider) (guid : Text)
    → open_connection_to_device m i p ≡ (p', some guid)
    → (get_elem? p.available_device_guids i ≡ some guid) × (open_guid m guid p ≡ (p', some guid))
unfolding open_connection_to_device open_guid
opened m i p p' guid h = elim (Option-cases (get_elem? p.available_device_guids i)) [
  | inl e ↦ ground arith
  | inr (d, e) ↦ ground arith
]

-- An `openConnectionToDevice` that succeeds opens the device of its index, adds one user to it and
-- none to any other, for a provider whose open connections have users; the `closeConnection` of what
-- it opened brings back the number of users of every device, and all open connections have users.
pub close_connection-open_connection :
    (m : Manager) (i : ℕ) (p p' : Provider) (guid : Text)
    → AreUsed p
    → open_connection_to_device m i p ≡ (p', some guid)
    → (get_elem? p.available_device_guids i ≡ some guid)
      × ((g : Text) → users g p' ≡ (if eq_text guid g then users g p + 1 else users g p))
      × ((g : Text) → users g (close_connection guid p') ≡ users g p)
      × AreUsed (close_connection guid p')
close_connection-open_connection m i p p' guid a h =
    let o = opened m i p p' guid h in
    let made : (open_guid m guid p).0 ≡ p' = ap (λ r. r.0) o.1 in
    let kept : AreUsed p' = subst AreUsed made (open_guid-AreUsed p a m guid) in
    let more : (g : Text) → users g p' ≡ (if eq_text guid g then users g p + 1 else users g p) =
      λ g. ground (arith, o.1, open_users guid g p a m) in
    (
      o.0,
      more,
      λ g. ground (arith, more g, close_users guid g p' kept),
      close_connection-AreUsed p' kept guid,
    )

-- A failed call changes nothing.
pub open_connection-fails :
    (m : Manager) (i : ℕ) (p p' : Provider) → open_connection_to_device m i p ≡ (p', none) → p' ≡ p
unfolding open_connection_to_device open_guid
open_connection-fails m i p p' h = elim (Option-cases (get_elem? p.available_device_guids i)) [
  | inl e ↦ ground arith
  | inr (d, e) ↦ ground arith
]

read_devices-connections :
    (guids : Option (List Text)) (p : Provider)
    → (read_devices guids p).0.available_connections ≡ p.available_connections
unfolding read_devices
read_devices-connections none p = refl
read_devices-connections (some guids) p = refl

count_devices-connections :
    (count : Option ℕ) (guids : Option (List Text)) (p : Provider)
    → (count_devices count guids p).0.available_connections ≡ p.available_connections
unfolding count_devices
count_devices-connections none guids p = refl
count_devices-connections (some zero) guids p = refl
count_devices-connections (some (suc n)) guids p = read_devices-connections guids p

-- A refresh of the list of devices leaves the connections.
pub refresh-connections :
    (m : Manager) (p : Provider) → (refresh m p).0.available_connections ≡ p.available_connections
unfolding refresh refresh_device_list
refresh-connections m p = ground (arith, count_devices-connections m.count m.devices p)
