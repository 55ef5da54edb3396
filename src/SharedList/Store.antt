-- ===== src/SharedList/Store.antt =====
-- The list of Concurrency3/prob2_conc3.c in memory, and what threads do to it.
-- An address is a number; NULL is none. What `malloc` gives is an address that is not in use, with
-- unknown content: none where nothing has been stored. Reading that is undefined, and no step.
use cs444_operating_systems.Prelude.{
  ℕ, zero, suc, ◌≡◌, ◌≢◌, Bool, true, false, Option, none, some, ◌==◌, if◌then◌else◌,
}

abbrev pub Address : Type 0
Address = ℕ

-- `struct list_node`; `link` is its field `next`.
pub record Node : Type 0 where
  pub value : Option ℕ
  pub link : Option (Option Address)

-- `head` is the field of `struct list_head`; `in_use` says what `malloc` has given and nobody freed.
pub record Memory : Type 0 where
  pub head : Option Address
  pub node : Address → Node
  pub in_use : Address → Bool

abbrev pub set_node : Memory → Address → Node → Memory
set_node m a n = record m { node = λ x. if x == a then n else m.node x }

abbrev pub unknown : Node
unknown = record { value = none; link = none }

-- `malloc` gives the address `a`.
abbrev pub allocate : Memory → Address → Memory
allocate m a = record (set_node m a unknown) { in_use = λ x. if x == a then true else m.in_use x }

abbrev pub release : Memory → Address → Memory
release m a = record m { in_use = λ x. if x == a then false else m.in_use x }

abbrev pub set_value : Memory → Address → ℕ → Memory
set_value m a v = set_node m a (record (m.node a) { value = some v })

abbrev pub set_link : Memory → Address → Option Address → Memory
set_link m a p = set_node m a (record (m.node a) { link = some p })

-- Where a thread stands between its calls on semaphores, in `insert` and `search`.
pub data Work : Type 0 where
  -- `insert`: before the test of `head->head`
  insert_test : (v : ℕ) → Work
  -- before the three assignments of the empty list
  insert_first : (v : ℕ) → Work
  first_value : (v : ℕ) → Work
  first_link : Work
  -- before `iterator = head->head`, before the test of the loop, and before the loop's body
  insert_start : (v : ℕ) → Work
  insert_loop : (v : ℕ) (iterator : Address) → Work
  insert_move : (v : ℕ) (iterator : Address) → Work
  -- before `temp = malloc(...)`, and before `iterator->next = temp`
  insert_temp : (v : ℕ) (iterator : Address) → Work
  insert_link : (iterator temp : Address) → Work
  -- `search`: before `iterator = head->head`, before the test, and before `iterator->next`
  search_start : (v : ℕ) → Work
  search_loop : (v : ℕ) (iterator : Option Address) → Work
  search_move : (v : ℕ) (iterator : Address) → Work

-- What comes next: more work, or the end of it.
pub data Next : Type 0 where
  goes_on : Work → Next
  done : Next

-- One access to the list.
pub data Access (m : Memory) : Work → Memory → Next → Type 0 where
  is_empty : {v : ℕ} → m.head ≡ none → Access m (insert_test v) m (goes_on (insert_first v))
  not_empty :
      {v : ℕ} {p : Address}
      → m.head ≡ some p
      → Access m (insert_test v) m (goes_on (insert_start v))
  start_insert :
      {v : ℕ} {p : Address}
      → m.head ≡ some p
      → Access m (insert_start v) m (goes_on (insert_loop v p))
  new_head :
      {v : ℕ} (a : Address)
      → m.in_use a ≡ false
      → Access m
          (insert_first v)
          (record (allocate m a) { head = some a })
          (goes_on (first_value v))
  head_value :
      {v : ℕ} {p : Address}
      → m.head ≡ some p
      → Access m (first_value v) (set_value m p v) (goes_on first_link)
  head_link : {p : Address} → m.head ≡ some p → Access m first_link (set_link m p none) done
  at_end :
      {v : ℕ} {p : Address}
      → (m.node p).link ≡ some none
      → Access m (insert_loop v p) m (goes_on (insert_temp v p))
  not_at_end :
      {v : ℕ} {p q : Address}
      → (m.node p).link ≡ some (some q)
      → Access m (insert_loop v p) m (goes_on (insert_move v p))
  move :
      {v : ℕ} {p q : Address}
      → (m.node p).link ≡ some (some q)
      → Access m (insert_move v p) m (goes_on (insert_loop v q))
  new_temp :
      {v : ℕ} {p : Address} (a : Address)
      → m.in_use a ≡ false
      → Access m
          (insert_temp v p)
          (set_link (set_value (allocate m a) a v) a none)
          (goes_on (insert_link p a))
  link_temp : {p a : Address} → Access m (insert_link p a) (set_link m p (some a)) done
  start_search : {v : ℕ} → Access m (search_start v) m (goes_on (search_loop v m.head))
  not_found : {v : ℕ} → Access m (search_loop v none) m done
  found :
      {v : ℕ} {p : Address} → (m.node p).value ≡ some v → Access m (search_loop v (some p)) m done
  differs :
      {v w : ℕ} {p : Address}
      → (m.node p).value ≡ some w
      → w ≢ v
      → Access m (search_loop v (some p)) m (goes_on (search_move v p))
  search_on :
      {v : ℕ} {p : Address} {q : Option Address}
      → (m.node p).link ≡ some q
      → Access m (search_move v p) m (goes_on (search_loop v q))

-- `delete` finds its node: take it out behind `prev`, or at the head, and free it.
abbrev pub take_out : Memory → (prev : Option Address) → Address → Option Address → Memory
take_out m none p next = release (record m { head = next }) p
take_out m (some q) p next = release (set_link m q next) p

-- A node whose value or link is unknown stops the loop: none; so does the end of the fuel.
abbrev pub read_node : Node → (ℕ → Option Address → Option Memory) → Option Memory
read_node n use_it = elim n.value [
  | none ↦ none
  | some v ↦ elim n.link [ none ↦ none | some next ↦ use_it v next ]
]

-- The `for` loop of `delete`.
unfoldable pub delete_loop :
    ℕ → Memory → (v : ℕ) → (iteratorp iterator : Option Address) → Option Memory
delete_loop zero m v iteratorp iterator = none
delete_loop (suc fuel) m v iteratorp none = some m
delete_loop (suc fuel) m v iteratorp (some p) = read_node (m.node p) (λ w next. elim (w == v) [
  | true ↦ some (take_out m iteratorp p next)
  | false ↦ delete_loop fuel m v (some p) next
])
