-- ===== src/SharedList/Tests.antt =====
-- The theorems about Concurrency3/prob2_conc3.c at concrete inputs.
use cs444_operating_systems.Prelude.{
  ℕ, ◌≡◌, ◌≢◌, refl, true, false, none, some, List, [], ◌∷◌, ◌==◌, if◌then◌else◌, arith,
}
use cs444_operating_systems.SharedList.Store.{Memory}
use cs444_operating_systems.SharedList.Chain.{Cell, Chain, Away, IsDistinct, IsList}
use cs444_operating_systems.SharedList.Append.{IsInserted, insert-IsInserted}
use cs444_operating_systems.SharedList.Remove.{remove_first}
use cs444_operating_systems.SharedList.Delete.{IsDeleted, delete_loop-IsDeleted}
use cs444_operating_systems.SharedList.Races.{after, Race, insert-Race}
use cs444_operating_systems.SharedList.Progress.{Unblocked, Reach-Unblocked}
use cs444_operating_systems.SharedList.Exclusion.{is_at_list, delete-alone}
use cs444_operating_systems.SharedList.{
  System, Role, inserts, deletes, start, Reach, init, delete_call, delete_no_inserters,
  delete_no_deleters, insert_call,
}

-- 7 at address 10, then 5 at address 20.
abbrev two_cells : List Cell
two_cells = record { address = 10; data_of = 7 } ∷ record { address = 20; data_of = 5 } ∷ []

abbrev two_nodes : Memory
two_nodes = record {
  head = some 10;
  node = λ x.
      if x == 10
      then record { value = some 7; link = some (some 20) }
      else record { value = some 5; link = some none };
  in_use = λ x. if x == 10 then true else (x == 20);
}

two_nodes-IsList : IsList two_nodes two_cells
unfolding Chain IsDistinct Away
two_nodes-IsList = record {
  list_head = refl;
  list_chain = (
    record { cell_in_use = refl; cell_value = refl; cell_link = refl },
    (record { cell_in_use = refl; cell_value = refl; cell_link = refl }, tt),
  );
  list_distinct = ((λ e. absurd (omega arith), tt), (tt, tt));
}

remove_first_5 : remove_first 5 two_cells ≡ record { address = 10; data_of = 7 } ∷ []
unfolding remove_first
remove_first_5 = refl

delete_loop-IsDeleted_example : (m' : Memory) × IsDeleted two_nodes two_cells 5 m'
delete_loop-IsDeleted_example = delete_loop-IsDeleted two_nodes two_cells 5 two_nodes-IsList

insert-IsInserted_example : (m' : Memory) × IsInserted two_nodes two_cells 30 9 m'
insert-IsInserted_example = insert-IsInserted two_nodes two_cells 30 9 two_nodes-IsList refl

ten_not_twenty : ◌≢◌ {A = ℕ} 10 20
ten_not_twenty e = absurd (omega arith)

insert-Race_example : Race 7 5 10 20
insert-Race_example = insert-Race 7 5 10 20 ten_not_twenty

-- Thread 0 deletes, thread 1 inserts.
abbrev roles : ℕ → Role
roles i = if i == 0 then deletes else inserts

abbrev begin : Reach 2 roles (start roles)
begin = init

abbrev deleting_5 : (s : System) × Reach 2 roles s
deleting_5 =
    let r = after begin 0 (omega arith) (delete_call 5 (omega arith)) in
    let r = after r 1 (omega arith) (insert_call 7 (omega arith)) in
    let r = after r 0 (omega arith) (delete_no_inserters (omega arith)) in
    let r = after r 0 (omega arith) (delete_no_deleters (omega arith)) in (_, r)

zero_not_one : ◌≢◌ {A = ℕ} 0 1
zero_not_one e = absurd (omega arith)

delete-alone_example : is_at_list (deleting_5.0.pc 1) ≡ false
delete-alone_example = delete-alone deleting_5.1 0 1 (omega arith) (omega arith) zero_not_one refl

Reach-Unblocked_example : Unblocked 2 deleting_5.0
Reach-Unblocked_example = Reach-Unblocked (omega arith) deleting_5.1
