-- ===== src/SharedList/Races.antt =====
-- Two inserters at once lose a value (Concurrency3/prob2_conc3.c).
use cs444_operating_systems.Prelude.{
  ℕ, ◌<◌, ◌≡◌, ◌≢◌, refl, sym, true, none, some, [], ◌∷◌, arith, ne→==, ==-refl, ◌==◌,
  if◌then◌else◌,
}
use cs444_operating_systems.SharedList.Store.{
  goes_on, search_loop, start_search, is_empty, new_head, head_value, head_link,
}
use cs444_operating_systems.SharedList.Chain.{Chain, IsDistinct, Away, IsList}
use cs444_operating_systems.SharedList.{
  Pc, inserter, Shared, Move, insert_call, insert_first_in, insert_next_in, insert_access,
  insert_leave, insert_last_out, insert_next_out, System, pick, update, Role, inserts, searches,
  searching, search_call, search_first_in, search_access, start, Reach, init, later,
}

abbrev pub after :
    {n : ℕ} {roles : ℕ → Role} {s : System} {t : Shared} {p : Pc}
    → Reach n roles s
    → (i : ℕ) → i < n
    → Move s.shared (s.pc i) t p
    → Reach n roles (record { shared = t; pc = update s.pc i p })
after r i h mv = later r (pick i h mv)

abbrev pub two_inserters : ℕ → Role
two_inserters i = inserts

abbrev begin : Reach 2 two_inserters (start two_inserters)
begin = init

-- A value that was stored and is not in the list, with no insertion under way.
pub record IsLost (s : System) (v w a b : ℕ) : Type 0 where
  pub lost_reached : Reach 2 two_inserters s
  pub lost_idle : (s.pc 0 ≡ inserter) × (s.pc 1 ≡ inserter)
  pub lost_list : IsList s.shared.memory (record { address = b; data_of = w } ∷ [])
  pub lost_in_use : s.shared.memory.in_use a ≡ true
  pub lost_value : (s.shared.memory.node a).value ≡ some v

-- Two inserters at once.
insert-IsLost : (v w a b : ℕ) → a ≢ b → (s : System) × IsLost s v w a b
unfolding Chain IsDistinct Away
insert-IsLost v w a b d =
    let r = after begin 0 (omega arith) (insert_call v (omega arith)) in
    let r = after r 0 (omega arith) (insert_first_in refl (omega arith)) in
    let r = after r 1 (omega arith) (insert_call w (omega arith)) in
    let r = after r 1 (omega arith) (insert_next_in (λ e. absurd (omega arith))) in
    let r = after r 0 (omega arith) (insert_access (is_empty refl)) in
    let r = after r 1 (omega arith) (insert_access (is_empty refl)) in
    let r = after r 0 (omega arith) (insert_access (new_head a refl)) in
    let r = after r 0 (omega arith) (insert_access (head_value refl)) in
    let r = after r 0 (omega arith) (insert_access (head_link refl)) in
    let r = after r 0 (omega arith) (insert_leave (omega arith)) in
    let r = after r 0 (omega arith) (insert_next_out (λ e. absurd (omega arith))) in
    let b_a = ne→== b a (λ e. d (sym e)) in
    let r = after r 1 (omega arith) (insert_access (new_head b (rw b_a refl))) in
    let r = after r 1 (omega arith) (insert_access (head_value refl)) in
    let r = after r 1 (omega arith) (insert_access (head_link refl)) in
    let r = after r 1 (omega arith) (insert_leave (omega arith)) in
    let r = after r 1 (omega arith) (insert_last_out refl) in
    let a_b = ne→== a b d in
    let a_a = ==-refl a in
    let b_b = ==-refl b in
    (
      _,
      record {
        lost_reached = r;
        lost_idle = (refl, refl);
        lost_list = record {
          list_head = refl;
          list_chain = (
            record { cell_in_use = rw b_b refl; cell_value = rw b_b refl; cell_link = rw b_b refl },
            tt,
          );
          list_distinct = (tt, tt);
        };
        lost_in_use = rw a_b (rw a_a refl);
        lost_value = rw a_b (rw a_a refl);
      },
    )

abbrev pub insert_and_search : ℕ → Role
insert_and_search i = if i == 0 then inserts else searches

abbrev begin_search : Reach 2 insert_and_search (start insert_and_search)
begin_search = init

-- A searcher at a node that has neither value nor link yet.
pub record IsUnset (s : System) (v a : ℕ) : Type 0 where
  pub unset_reached : Reach 2 insert_and_search s
  pub unset_at : s.pc 1 ≡ searching (goes_on (search_loop v (some a)))
  pub unset_value : (s.shared.memory.node a).value ≡ none
  pub unset_link : (s.shared.memory.node a).link ≡ none

-- An inserter and a searcher at once.
search-IsUnset : (v w a : ℕ) → (s : System) × IsUnset s w a
search-IsUnset v w a =
    let r = after begin_search 0 (omega arith) (insert_call v (omega arith)) in
    let r = after r 0 (omega arith) (insert_first_in refl (omega arith)) in
    let r = after r 0 (omega arith) (insert_access (is_empty refl)) in
    let r = after r 0 (omega arith) (insert_access (new_head a refl)) in
    let r = after r 1 (omega arith) (search_call w (omega arith)) in
    let r = after r 1 (omega arith) (search_first_in refl (omega arith)) in
    let r = after r 1 (omega arith) (search_access start_search) in
    let a_a = ==-refl a in
    (
      _,
      record {
        unset_reached = r;
        unset_at = refl;
        unset_value = rw a_a refl;
        unset_link = rw a_a refl;
      },
    )

-- What threads can do to each other that insert and search the empty list at once.
pub record Race (v w a b : ℕ) : Type 0 where
  pub loses : (s : System) × IsLost s v w a b
  pub reads_unset : (s : System) × IsUnset s w a

-- On the empty list, whatever two values are inserted and whatever two addresses `malloc` gives:
-- two inserters have an order of their steps that ends with both back in their loops and a list of
-- the one node `b` with `w`, while the node `a` with `v` is allocated and not in the list; and an
-- inserter and a searcher have one in which the searcher comes to the new node, about to read its
-- value, before value and link have been stored.
pub insert-Race : (v w a b : ℕ) → a ≢ b → Race v w a b
insert-Race v w a b d = record {
  loses = insert-IsLost v w a b d;
  reads_unset = search-IsUnset v w a;
}
