-- ===== src/Daemon/Library/Ordered.antt =====
-- mtpmount/SubCommandLibrary.cpp: the order of the sub-commands, and what a name finds.
use mtpmount.Base.{
  ◌≤◌, true, none, some, List, [], ◌∷◌, ◌≡◌, ◌≢◌, refl, arith, if◌then◌else◌, length, All, All-mono,
}
use mtpmount.Base.Text.{
  Text, eq_text, lt_text, eq_text_iff, lt_text_irrefl, lt_text_trans, lt_text_total,
}
use mtpmount.Base.Assoc.{find_key}
use mtpmount.Daemon.Library.{SubCommand, SubCommandLibrary, insert_ordered, add_sub_command}

-- The names ascend.
abbrev pub AreOrdered : {V : Type 0} → List (Text × V) → Type 0
AreOrdered [] = Unit
AreOrdered ((k, v) ∷ m) = All (λ e. lt_text k e.0 ≡ true) m × AreOrdered m

find-below :
    {V : Type 0} (k : Text) (m : List (Text × V))
    → All (λ e. lt_text k e.0 ≡ true) m
    → find_key eq_text k m ≡ none
unfolding find_key
find-below k [] h = refl
find-below k ((i, w) ∷ m) h =
    ground (arith, eq_text_iff i k, lt_text_irrefl k, h.0, find-below k m h.1)

above_trans :
    {V : Type 0} (k i : Text) (m : List (Text × V))
    → lt_text k i ≡ true
    → All (λ e. lt_text i e.0 ≡ true) m
    → All (λ e. lt_text k e.0 ≡ true) m
above_trans k i m h above =
    All-mono (λ e. lt_text i e.0 ≡ true) (λ e. lt_text k e.0 ≡ true) m
      (λ e g. lt_text_trans k i e.0 h g) above

find-insert_ordered :
    {V : Type 0} (k j : Text) (v : V) (m : List (Text × V))
    → AreOrdered m
    → find_key eq_text j (insert_ordered k v m) ≡ (elim (find_key eq_text j m) [
      | some w ↦ some w
      | none ↦ if eq_text k j then some v else none
    ])
unfolding find_key insert_ordered
find-insert_ordered k j v [] o = ground arith
find-insert_ordered k j v ((i, w) ∷ m) (above, o) = ground (
  arith,
  eq_text_iff i k,
  eq_text_iff i j,
  eq_text_iff k j,
  lt_text_irrefl k,
  λ (h : lt_text k i ≡ true). find-below k m (above_trans k i m h above),
  find-insert_ordered k j v m o,
)

All-insert :
    {V : Type 0} (i k : Text) (v : V) (m : List (Text × V))
    → lt_text i k ≡ true
    → All (λ e. lt_text i e.0 ≡ true) m
    → All (λ e. lt_text i e.0 ≡ true) (insert_ordered k v m)
unfolding insert_ordered
All-insert i k v [] h a = (h, tt)
All-insert i k v ((j, w) ∷ m) h a = ground (arith, All-insert i k v m h a.1)

insert_ordered-AreOrdered :
    {V : Type 0} (k : Text) (v : V) (m : List (Text × V))
    → AreOrdered m
    → AreOrdered (insert_ordered k v m)
unfolding insert_ordered
insert_ordered-AreOrdered k v [] o = (tt, tt)
insert_ordered-AreOrdered k v ((i, w) ∷ m) (above, o) = ground (
  arith,
  λ (h : lt_text k i ≡ true). above_trans k i m h above,
  λ (h : lt_text i k ≡ true). All-insert i k v m h above,
  lt_text_total i k,
  insert_ordered-AreOrdered k v m o,
)

module _ {W : Type 0} where
  -- The names ascend, and no name is longer than the width of their column.
  pub record IsLibrary (lib : SubCommandLibrary W) : Type 0 where
    pub ordered : AreOrdered lib.sub_commands
    pub narrow :
        (k : Text) → find_key eq_text k lib.sub_commands ≢ none → length k ≤ lib.cmd_width_counter

  -- A sub-command that is added is found under its name, unless the name has one already, which
  -- stays; every other name finds what it found. The names stay in ascending order, and no name is
  -- longer than the column of `cmdlist`.
  pub find-add_sub_command :
      (cmd : SubCommand W) (lib : SubCommandLibrary W)
      → IsLibrary lib
      → ((j : Text)
          → find_key eq_text j (add_sub_command cmd lib).sub_commands
            ≡ (elim (find_key eq_text j lib.sub_commands) [
              | some c ↦ some c
              | none ↦ if eq_text cmd.command_name j then some cmd else none
            ]))
        × IsLibrary (add_sub_command cmd lib)
  unfolding add_sub_command
  find-add_sub_command cmd lib l =
      let found =
        λ (j : Text). find-insert_ordered cmd.command_name j cmd lib.sub_commands l.ordered in
      (
        found,
        record {
          ordered = insert_ordered-AreOrdered cmd.command_name cmd lib.sub_commands l.ordered;
          narrow = λ k f. ground (arith, found k, eq_text_iff cmd.command_name k, l.narrow k);
        },
      )
