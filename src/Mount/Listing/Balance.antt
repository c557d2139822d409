-- ===== src/Mount/Listing/Balance.antt =====
-- mtpmount/MountCommands.cpp: what the sub-command list leaves as it was.
use mtpmount.Base.{
  ℕ, ◌+◌, Option, none, some, List, [], ◌∷◌, ◌≡◌, ◌≢◌, ◌==◌, refl, sym, ap, subst, or_else, ◌∙◌,
  arith, Bool-cases, inl, inr,
}
use mtpmount.Base.Text.{Text, eq_text, codes}
use mtpmount.Base.Assoc.{find_key, HasDistinctKeys}
use mtpmount.Provider.{
  Provider, get_device_count, open_connection_to_device, refresh, get_friendly_name_of_device,
}
use mtpmount.Provider.Counts.{
  AreUsed, users, close_connection-open_connection, open_connection-fails, refresh-connections,
}
use mtpmount.Mount.Store.{Host, ActiveConnection, MountAddressStore}
use mtpmount.Mount.Listing.{
  device_listed, device_lines, available_loop, print_all_active, print_all_available, list_command,
}

module _ {D S F : Type 0} where
  -- The mapped drives are the same, and every device has as many users.
  pub record Keeps (st st' : MountAddressStore D S F) : Type 0 where
    pub connections : st'.connectionmap ≡ st.connectionmap
    pub used : AreUsed st'.provider
    pub counts : (g : Text) → users g st'.provider ≡ users g st.provider

  Keeps-self : (st : MountAddressStore D S F) → AreUsed st.provider → Keeps st st
  Keeps-self st a = record { connections = refl; used = a; counts = λ g. refl }

  Keeps-trans : (s t u : MountAddressStore D S F) → Keeps s t → Keeps t u → Keeps s u
  Keeps-trans s t u k l = record {
    connections = l.connections ∙ k.connections;
    used = l.used;
    counts = λ g. l.counts g ∙ k.counts g;
  }

  device_listed-Keeps :
      (h : Host D S) (i : ℕ) (device : Text) (active : Option (ActiveConnection D S F))
      (st : MountAddressStore D S F)
      → AreUsed st.provider
      → (r : Provider × Option Text) → open_connection_to_device h.manager i st.provider ≡ r
      → Keeps st (device_listed h device active st r).0
  unfolding device_listed
  device_listed-Keeps h i device active st a (p, none) e =
      let same = open_connection-fails h.manager i st.provider p e in
      record {
        connections = refl;
        used = subst AreUsed (sym same) a;
        counts = λ g. ap (users g) same;
      }
  device_listed-Keeps h i device active st a (p, some guid) e =
      let (which, more, back, used) =
        close_connection-open_connection h.manager i st.provider p guid a e in
      record { connections = refl; used = used; counts = back }

  device_lines-Keeps :
      (h : Host D S) (i : ℕ) (st : MountAddressStore D S F)
      → AreUsed st.provider
      → Keeps st (device_lines h i st).0
  unfolding device_lines
  device_lines-Keeps h i st a =
      device_listed-Keeps h i (or_else (get_friendly_name_of_device h.manager i st.provider) [])
        (find_key eq_text (or_else (get_friendly_name_of_device h.manager i st.provider) [])
          st.connectionmap)
        st a (open_connection_to_device h.manager i st.provider) refl

  available_loop-Keeps :
      (h : Host D S) (i : ℕ) (guids : List Text) (st : MountAddressStore D S F)
      → AreUsed st.provider
      → Keeps st (available_loop h i guids st).0
  unfolding available_loop
  available_loop-Keeps h i [] st a = Keeps-self st a
  available_loop-Keeps h i (guid ∷ guids) st a =
      let here = device_lines-Keeps h i st a in
      let next = (device_lines h i st).0 in
      Keeps-trans st next (available_loop h (i + 1) guids next).0 here
        (available_loop-Keeps h (i + 1) guids next here.used)

  refreshed-Keeps :
      (h : Host D S) (st : MountAddressStore D S F)
      → AreUsed st.provider
      → Keeps st record st { provider = (refresh h.manager st.provider).0 }
  refreshed-Keeps h st a =
      let same = refresh-connections h.manager st.provider in
      record {
        connections = refl;
        used = record {
          distinct = subst (HasDistinctKeys eq_text) (sym same) a.distinct;
          used = subst (λ m. (g : Text) → find_key eq_text g m ≢ some 0) (sym same) a.used;
        };
        counts = λ g. ap (λ m. or_else (find_key eq_text g m) 0) same;
      }

  print_all_available-Keeps :
      (h : Host D S) (st : MountAddressStore D S F)
      → AreUsed st.provider
      → Keeps st (print_all_available h st).0
  unfolding print_all_available
  print_all_available-Keeps h st a =
      let p = (refresh h.manager st.provider).0 in
      let st' : MountAddressStore D S F = record st { provider = p } in
      let first = refreshed-Keeps h st a in
      elim (Bool-cases (get_device_count p == 0)) [
        | inl e ↦ rw (e, print_all_available) first
        | inr e ↦
            rw (e, print_all_available)
              (Keeps-trans st st' (available_loop h 0 p.available_device_guids st').0 first
                (available_loop-Keeps h 0 p.available_device_guids st' first.used))
      ]

  -- The sub-command list, with any parameters, leaves the drives that are mapped, and gives every
  -- device as many users as it had, so that no device stays open that was not, for a store whose open
  -- connections have users.
  pub list_command-Keeps :
      (h : Host D S) (subparams : List Text) (st : MountAddressStore D S F)
      → AreUsed st.provider
      → Keeps st (list_command h subparams st).0
  unfolding list_command print_all_active
  list_command-Keeps h [] st a = Keeps-self st a
  list_command-Keeps h (p ∷ q ∷ rest) st a = Keeps-self st a
  list_command-Keeps h (p ∷ []) st a = elim (Bool-cases (eq_text p (codes "active"))) [
    | inl e ↦ rw (e, list_command) record { connections = refl; used = a; counts = λ g. refl }
    | inr e ↦ elim (Bool-cases (eq_text p (codes "available"))) [
      | inl f ↦ rw (e, list_command, f) (print_all_available-Keeps h st a)
      | inr f ↦ rw (e, list_command, f) (Keeps-self st a)
    ]
  ]

  available_loop-connectionmap :
      (h : Host D S) (i : ℕ) (guids : List Text) (st : MountAddressStore D S F)
      → (available_loop h i guids st).0.connectionmap ≡ st.connectionmap
  unfolding available_loop device_lines
  available_loop-connectionmap h i [] st = refl
  available_loop-connectionmap h i (guid ∷ guids) st =
      available_loop-connectionmap h (i + 1) guids (device_lines h i st).0
      ∙ listed (or_else (get_friendly_name_of_device h.manager i st.provider) [])
          (find_key eq_text (or_else (get_friendly_name_of_device h.manager i st.provider) [])
            st.connectionmap)
          (open_connection_to_device h.manager i st.provider)
    where
      listed :
          (device : Text) (active : Option (ActiveConnection D S F)) (r : Provider × Option Text)
          → (device_listed h device active st r).0.connectionmap ≡ st.connectionmap
      listed device active (p, none) = unfold device_listed in refl
      listed device active (p, some guid) = unfold device_listed in refl

  -- Whatever the provider answers, the drives that are mapped stay.
  pub list_command-connectionmap :
      (h : Host D S) (subparams : List Text) (st : MountAddressStore D S F)
      → (list_command h subparams st).0.connectionmap ≡ st.connectionmap
  unfolding list_command print_all_active print_all_available
  list_command-connectionmap h [] st = refl
  list_command-connectionmap h (p ∷ q ∷ rest) st = refl
  list_command-connectionmap h (p ∷ []) st =
      let provider = (refresh h.manager st.provider).0 in
      let refreshed : MountAddressStore D S F = record st { provider = provider } in
      ground (arith, available_loop-connectionmap h 0 provider.available_device_guids refreshed)
