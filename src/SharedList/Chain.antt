-- ===== src/SharedList/Chain.antt =====
-- The list of Concurrency3/prob2_conc3.c as a sequence of cells, and how memory holds it.
use cs444_operating_systems.Prelude.{
  ℕ, ◌≡◌, ◌≢◌, refl, sym, ◌∙◌, ap, true, Option, none, some, List, [], ◌∷◌, ne→==,
}
use cs444_operating_systems.SharedList.Store.{Address, Memory, set_link, release}

pub record Cell : Type 0 where
  pub address : Address
  pub data_of : ℕ

abbrev pub first : List Cell → Option Address
first [] = none
first (c ∷ cs) = some c.address

pub record IsCell (m : Memory) (c : Cell) (next : Option Address) : Type 0 where
  pub cell_in_use : m.in_use c.address ≡ true
  pub cell_value : (m.node c.address).value ≡ some c.data_of
  pub cell_link : (m.node c.address).link ≡ some next

unfoldable pub Chain : Memory → List Cell → Type 0
Chain m [] = Unit
Chain m (c ∷ cs) = IsCell m c (first cs) × Chain m cs

-- No cell has the address.
unfoldable pub Away : Address → List Cell → Type 0
Away a [] = Unit
Away a (c ∷ cs) = (a ≢ c.address) × Away a cs

unfoldable pub IsDistinct : List Cell → Type 0
IsDistinct [] = Unit
IsDistinct (c ∷ cs) = Away c.address cs × IsDistinct cs

-- The list in memory, from `head->head` to NULL, without a cycle.
pub record IsList (m : Memory) (cells : List Cell) : Type 0 where
  pub list_head : m.head ≡ first cells
  pub list_chain : Chain m cells
  pub list_distinct : IsDistinct cells

-- What a cell needs of memory.
pub record SameAt (m m' : Memory) (x : Address) : Type 0 where
  pub same_node : m'.node x ≡ m.node x
  pub same_in_use : m'.in_use x ≡ m.in_use x

pub IsCell-SameAt :
    {m m' : Memory} {c : Cell} {next : Option Address}
    → SameAt m m' c.address
    → IsCell m c next
    → IsCell m' c next
IsCell-SameAt s h = record {
  cell_in_use = s.same_in_use ∙ h.cell_in_use;
  cell_value = ap (λ n. n.value) s.same_node ∙ h.cell_value;
  cell_link = ap (λ n. n.link) s.same_node ∙ h.cell_link;
}

-- Memory that differs at `a` alone holds a chain that is away from `a`.
pub Chain-frame :
    {m m' : Memory} {a : Address}
    → ((x : Address) → a ≢ x → SameAt m m' x)
    → (cells : List Cell) → Away a cells
    → Chain m cells
    → Chain m' cells
unfolding Chain Away
Chain-frame s [] w h = tt
Chain-frame s (c ∷ cs) w h = (IsCell-SameAt (s c.address w.0) h.0, Chain-frame s cs w.1 h.1)

-- What `release` and `set_link` leave alone.
pub release-SameAt : (m : Memory) (a x : Address) → a ≢ x → SameAt m (release m a) x
release-SameAt m a x d = record {
  same_node = refl;
  same_in_use = let e = ne→== x a (λ k. d (sym k)) in rw e refl;
}

pub set_link-SameAt :
    (m : Memory) (a : Address) (p : Option Address) (x : Address)
    → a ≢ x
    → SameAt m (set_link m a p) x
set_link-SameAt m a p x d = record {
  same_node = let e = ne→== x a (λ k. d (sym k)) in rw e refl;
  same_in_use = refl;
}

pub SameAt-trans :
    {m m' m'' : Memory} {x : Address} → SameAt m m' x → SameAt m' m'' x → SameAt m m'' x
SameAt-trans a b = record {
  same_node = b.same_node ∙ a.same_node;
  same_in_use = b.same_in_use ∙ a.same_in_use;
}
