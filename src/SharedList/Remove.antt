-- ===== src/SharedList/Remove.antt =====
-- What it means to take the first cell with a value out, and how `delete` of
-- Concurrency3/prob2_conc3.c takes a node out.
use cs444_operating_systems.Prelude.{
  ℕ, ◌≡◌, ◌≢◌, refl, sym, ◌∙◌, subst, true, false, Bool-cases, inl, inr, Option, none, some, List,
  [], ◌∷◌, ◌==◌, if◌then◌else◌, ne→==, ==-refl,
}
use cs444_operating_systems.SharedList.Store.{Address, Memory, set_link, take_out}
use cs444_operating_systems.SharedList.Chain.{
  Cell, first, IsCell, Chain, Away, IsDistinct, SameAt, SameAt-trans, Chain-frame, release-SameAt,
  set_link-SameAt,
}

-- The cells without the first one of value `v`.
unfoldable pub remove_first : ℕ → List Cell → List Cell
remove_first v [] = []
remove_first v (c ∷ cs) = let rest = remove_first v cs in if c.data_of == v then cs else c ∷ rest

-- The address of the first cell of value `v`.
unfoldable pub found : ℕ → List Cell → Option Address
found v [] = none
found v (c ∷ cs) = let rest = found v cs in if c.data_of == v then some c.address else rest

pub remove_first-match :
    (v : ℕ) (c : Cell) (cs : List Cell) → (c.data_of == v) ≡ true → remove_first v (c ∷ cs) ≡ cs
unfolding remove_first
remove_first-match v c cs e = rw e refl

pub remove_first-next :
    (v : ℕ) (c : Cell) (cs : List Cell)
    → (c.data_of == v) ≡ false
    → remove_first v (c ∷ cs) ≡ c ∷ remove_first v cs
unfolding remove_first
remove_first-next v c cs e = rw e refl

pub found-match :
    (v : ℕ) (c : Cell) (cs : List Cell)
    → (c.data_of == v) ≡ true
    → found v (c ∷ cs) ≡ some c.address
unfolding found
found-match v c cs e = rw e refl

pub take_out-freed :
    (m : Memory) (prev : Option Address) (p : Address) (next : Option Address)
    → (take_out m prev p next).in_use p ≡ false
take_out-freed m none p next = rw (==-refl p) refl
take_out-freed m (some q) p next = rw (==-refl p) refl

-- The cell that is found is the one that is taken out.
pub found-freed :
    (m : Memory) (prev next : Option Address) (v : ℕ) (c : Cell) (cs : List Cell) (a : Address)
    → (c.data_of == v) ≡ true
    → found v (c ∷ cs) ≡ some a
    → (take_out m prev c.address next).in_use a ≡ false
found-freed m prev next v c cs a e f =
    let at : some c.address ≡ some a = sym (found-match v c cs e) ∙ f in
    let same : c.address ≡ a = cc in
    subst (λ x. (take_out m prev c.address next).in_use x ≡ false) same
      (take_out-freed m prev c.address next)

pub found-next :
    (v : ℕ) (c : Cell) (cs : List Cell) → (c.data_of == v) ≡ false → found v (c ∷ cs) ≡ found v cs
unfolding found
found-next v c cs e = rw e refl

-- `q` leads to what came behind `p`.
pub take_out-IsCell :
    {m : Memory} {q : Cell} {before : Option Address} (p : Address) (next : Option Address)
    → p ≢ q.address
    → IsCell m q before
    → IsCell (take_out m (some q.address) p next) q next
take_out-IsCell {m} {q} p next d h = record {
  cell_in_use = let e = ne→== q.address p (λ k. d (sym k)) in rw e h.cell_in_use;
  cell_value = let e = ==-refl q.address in rw e h.cell_value;
  cell_link = let e = ==-refl q.address in rw e refl;
}

pub take_head-SameAt :
    (m : Memory) (p x : Address) (next : Option Address)
    → p ≢ x
    → SameAt m (take_out m none p next) x
take_head-SameAt m p x next d = record {
  same_node = refl;
  same_in_use = (release-SameAt m p x d).same_in_use;
}

pub take_out-SameAt :
    (m : Memory) (q p x : Address) (next : Option Address)
    → q ≢ x
    → p ≢ x
    → SameAt m (take_out m (some q) p next) x
take_out-SameAt m q p x next d e =
    SameAt-trans (set_link-SameAt m q next x d) (release-SameAt (set_link m q next) p x e)

pub Chain-take_out :
    (m : Memory) (q c : Cell) (cs : List Cell)
    → Chain m (q ∷ c ∷ cs)
    → IsDistinct (q ∷ c ∷ cs)
    → Chain (take_out m (some q.address) c.address (first cs)) (q ∷ cs)
unfolding Chain IsDistinct Away
Chain-take_out m q c cs h d =
    let linked = set_link m q.address (first cs) in
    (
      take_out-IsCell c.address (first cs) (λ e. d.0.0 (sym e)) h.0,
      Chain-frame (release-SameAt linked c.address) cs d.1.0
          (Chain-frame (set_link-SameAt m q.address (first cs)) cs d.0.1 h.1.1),
    )

pub Away-remove_first : (a v : ℕ) (cells : List Cell) → Away a cells → Away a (remove_first v cells)
unfolding Away remove_first
Away-remove_first a v [] w = w
Away-remove_first a v (c ∷ cs) w =
    let rest = Away-remove_first a v cs w.1 in
    elim (Bool-cases (c.data_of == v)) [ inl e ↦ rw e w.1 | inr e ↦ rw e (w.0, rest) ]

pub remove_first-IsDistinct :
    (v : ℕ) (cells : List Cell) → IsDistinct cells → IsDistinct (remove_first v cells)
unfolding IsDistinct remove_first
remove_first-IsDistinct v [] d = d
remove_first-IsDistinct v (c ∷ cs) d =
    let rest = remove_first-IsDistinct v cs d.1 in
    elim (Bool-cases (c.data_of == v)) [
      | inl e ↦ rw e d.1
      | inr e ↦ rw e (Away-remove_first c.address v cs d.0, rest)
    ]
