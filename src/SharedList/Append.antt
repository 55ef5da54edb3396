-- ===== src/SharedList/Append.antt =====
-- `insert` puts its value at the end of the list (Concurrency3/prob2_conc3.c).
use cs444_operating_systems.Prelude.{
  ℕ, ◌≡◌, ◌≢◌, refl, sym, ◌∙◌, ap, false, none, some, List, [], ◌∷◌, ◌++◌, ne→==, ==-refl,
}
use cs444_operating_systems.SharedList.Store.{
  Address, Memory, set_link, set_value, allocate, Work, insert_test, insert_loop, Next, goes_on,
  done, Access, is_empty, not_empty, new_head, head_value, head_link, at_end, not_at_end, move,
  new_temp, link_temp, start_insert,
}
use cs444_operating_systems.SharedList.Chain.{
  Cell, IsCell, Chain, Away, IsDistinct, IsList, SameAt, SameAt-trans, IsCell-SameAt,
  set_link-SameAt,
}

-- One thread's accesses, with no other thread between them.
pub data Alone : Memory → Next → Memory → Next → Type 0 where
  arrived : {m : Memory} {x : Next} → Alone m x m x
  goes :
      {w : Work} {m m' m'' : Memory} {y z : Next}
      → Access m w m' y
      → Alone m' y m'' z
      → Alone m (goes_on w) m'' z

allocate-SameAt : (m : Memory) (a x : Address) → a ≢ x → SameAt m (allocate m a) x
allocate-SameAt m a x d =
    let e = ne→== x a (λ k. d (sym k)) in record { same_node = rw e refl; same_in_use = rw e refl }

set_value-SameAt : (m : Memory) (a x : Address) (v : ℕ) → a ≢ x → SameAt m (set_value m a v) x
set_value-SameAt m a x v d =
    let e = ne→== x a (λ k. d (sym k)) in record { same_node = rw e refl; same_in_use = refl }

-- A new node: its address is none of the list's.
free-Away :
    (m : Memory) (a : Address) (cells : List Cell)
    → m.in_use a ≡ false
    → Chain m cells
    → Away a cells
unfolding Chain Away
free-Away m a [] f h = tt
free-Away m a (c ∷ cs) f h =
    (λ e. absurd (let k = ap m.in_use e in let u = h.0.cell_in_use in cc), free-Away m a cs f h.1)

abbrev new_node : Memory → Address → ℕ → Memory
new_node m a v = set_link (set_value (allocate m a) a v) a none

abbrev pub cell_of : Address → ℕ → Cell
cell_of a v = record { address = a; data_of = v }

new_node-SameAt : (m : Memory) (a x : Address) (v : ℕ) → a ≢ x → SameAt m (new_node m a v) x
new_node-SameAt m a x v d = SameAt-trans (allocate-SameAt m a x d) (
    SameAt-trans (set_value-SameAt (allocate m a) a x v d)
      (set_link-SameAt (set_value (allocate m a) a v) a none x d))

new_node-IsCell : (m : Memory) (a : Address) (v : ℕ) → IsCell (new_node m a v) (cell_of a v) none
new_node-IsCell m a v =
    let e = ==-refl a in
    record { cell_in_use = rw e refl; cell_value = rw e refl; cell_link = rw e refl }

-- What the loop of `insert` leaves behind the node `c`.
record IsAppended (m : Memory) (c : Cell) (cs : List Cell) (a v : ℕ) (m' : Memory) : Type 0 where
  appended_run : Alone m (goes_on (insert_loop v c.address)) m' done
  appended_chain : Chain m' (c ∷ (cs ++ (cell_of a v ∷ [])))
  appended_head : m'.head ≡ m.head
  appended_same : (x : Address) → a ≢ x → Away x (c ∷ cs) → SameAt m m' x

end-IsAppended :
    (m : Memory) (c : Cell) (a v : ℕ)
    → m.in_use a ≡ false
    → IsCell m c none
    → a ≢ c.address
    → IsAppended m c [] a v (set_link (new_node m a v) c.address (some a))
unfolding Chain Away
end-IsAppended m c a v f h d =
    let e = ==-refl c.address in
    let old = IsCell-SameAt (new_node-SameAt m a c.address v d) h in
    record {
      appended_run = goes (at_end h.cell_link) (goes (new_temp a f) (goes link_temp arrived));
      appended_chain = (
        record {
          cell_in_use = old.cell_in_use;
          cell_value = rw e old.cell_value;
          cell_link = rw e refl;
        },
        (
          IsCell-SameAt (set_link-SameAt (new_node m a v) c.address (some a) a (λ k. d (sym k)))
              (new_node-IsCell m a v),
          tt,
        ),
      );
      appended_head = refl;
      appended_same = λ x n w.
          SameAt-trans (new_node-SameAt m a x v n)
            (set_link-SameAt (new_node m a v) c.address (some a) x (λ k. w.0 (sym k)));
    }

loop-IsAppended :
    (m : Memory) (c : Cell) (cs : List Cell) (a v : ℕ)
    → m.in_use a ≡ false
    → Chain m (c ∷ cs)
    → IsDistinct (c ∷ cs)
    → Away a (c ∷ cs)
    → (m' : Memory) × IsAppended m c cs a v m'
unfolding Chain IsDistinct Away
loop-IsAppended m c [] a v f h d w =
    (set_link (new_node m a v) c.address (some a), end-IsAppended m c a v f h.0 w.0)
loop-IsAppended m c (c' ∷ cs) a v f h d w =
    let rest = loop-IsAppended m c' cs a v f h.1 d.1 w.1 in
    (
      rest.0,
      record {
        appended_run =
            goes (not_at_end h.0.cell_link) (goes (move h.0.cell_link) rest.1.appended_run);
        appended_chain =
            (IsCell-SameAt (rest.1.appended_same c.address w.0 d.0) h.0, rest.1.appended_chain);
        appended_head = rest.1.appended_head;
        appended_same = λ x n k. rest.1.appended_same x n k.1;
      },
    )

Away-append :
    (x a v : ℕ) (cells : List Cell) → Away x cells → x ≢ a → Away x (cells ++ (cell_of a v ∷ []))
unfolding Away
Away-append x a v [] w d = (d, tt)
Away-append x a v (c ∷ cs) w d = (w.0, Away-append x a v cs w.1 d)

append-IsDistinct :
    (a v : ℕ) (cells : List Cell)
    → IsDistinct cells
    → Away a cells
    → IsDistinct (cells ++ (cell_of a v ∷ []))
unfolding IsDistinct Away
append-IsDistinct a v [] d w = (tt, tt)
append-IsDistinct a v (c ∷ cs) d w =
    (Away-append c.address a v cs d.0 (λ e. w.0 (sym e)), append-IsDistinct a v cs d.1 w.1)

-- What `insert` leaves: the value at the end, in the new node `a`, and nothing else touched.
pub record IsInserted (m : Memory) (cells : List Cell) (a v : ℕ) (m' : Memory) : Type 0 where
  pub inserted_run : Alone m (goes_on (insert_test v)) m' done
  pub inserted_list : IsList m' (cells ++ (cell_of a v ∷ []))
  pub inserted_same : (x : Address) → a ≢ x → Away x cells → SameAt m m' x

-- `insert`, on a list in memory that has no cycle, with a new node at any address `a` that is not in
-- use and with no other thread between its accesses: it reads no unknown content and ends, with
-- the list it found and its value in the node `a` at the end, and nothing else touched.
pub insert-IsInserted :
    (m : Memory) (cells : List Cell) (a v : ℕ)
    → IsList m cells
    → m.in_use a ≡ false
    → (m' : Memory) × IsInserted m cells a v m'
unfolding Chain IsDistinct Away
insert-IsInserted m [] a v h f =
    let m1 = record (allocate m a) { head = some a } in
    let e = ==-refl a in
    (
      set_link (set_value m1 a v) a none,
      record {
        inserted_run =
            goes (is_empty h.list_head)
              (goes (new_head a f) (goes (head_value refl) (goes (head_link refl) arrived)));
        inserted_list = record {
          list_head = refl;
          list_chain = (
            record { cell_in_use = rw e refl; cell_value = rw e refl; cell_link = rw e refl },
            tt,
          );
          list_distinct = append-IsDistinct a v [] h.list_distinct tt;
        };
        inserted_same = λ x n w. record {
          same_node = (new_node-SameAt m a x v n).same_node;
          same_in_use = (new_node-SameAt m a x v n).same_in_use;
        };
      },
    )
insert-IsInserted m (c ∷ cs) a v h f =
    let away = free-Away m a (c ∷ cs) f h.list_chain in
    let rest = loop-IsAppended m c cs a v f h.list_chain h.list_distinct away in
    (
      rest.0,
      record {
        inserted_run =
            goes (not_empty h.list_head) (goes (start_insert h.list_head) rest.1.appended_run);
        inserted_list = record {
          list_head = rest.1.appended_head ∙ h.list_head;
          list_chain = rest.1.appended_chain;
          list_distinct = append-IsDistinct a v (c ∷ cs) h.list_distinct away;
        };
        inserted_same = rest.1.appended_same;
      },
    )
