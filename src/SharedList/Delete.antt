-- ===== src/SharedList/Delete.antt =====
-- `delete` takes the first node with its value out of the list (Concurrency3/prob2_conc3.c).
use cs444_operating_systems.Prelude.{
  ℕ, suc, ◌≡◌, refl, sym, ◌∙◌, ap, subst, true, false, Bool-cases, inl, inr, Option, none, some,
  List, [], ◌∷◌, ◌==◌, length,
}
use cs444_operating_systems.SharedList.Store.{Address, Memory, take_out, delete_loop}
use cs444_operating_systems.SharedList.Chain.{
  Cell, first, IsCell, Chain, Away, IsDistinct, IsList, SameAt, IsCell-SameAt, Chain-frame,
}
use cs444_operating_systems.SharedList.Remove.{
  remove_first, found, remove_first-match, remove_first-next, take_head-SameAt, take_out-SameAt,
  found-freed, found-next, Chain-take_out, Away-remove_first, remove_first-IsDistinct,
}

-- The loop from the cells behind `q`.
record IsRemoved (m : Memory) (q : Cell) (cells : List Cell) (v : ℕ) (m' : Memory) : Type 0 where
  removed_run : delete_loop (suc (length cells)) m v (some q.address) (first cells) ≡ some m'
  removed_chain : Chain m' (q ∷ remove_first v cells)
  removed_head : m'.head ≡ m.head
  removed_freed : (a : Address) → found v cells ≡ some a → m'.in_use a ≡ false
  removed_same : (x : Address) → Away x (q ∷ cells) → SameAt m m' x

delete_loop-match :
    (fuel : ℕ) (m : Memory) (v : ℕ) (prev next : Option Address) (c : Cell)
    → IsCell m c next
    → (c.data_of == v) ≡ true
    → delete_loop (suc fuel) m v prev (some c.address) ≡ some (take_out m prev c.address next)
unfolding delete_loop
delete_loop-match fuel m v prev next c h e = rw h.cell_value (rw h.cell_link (rw e refl))

delete_loop-next :
    (fuel : ℕ) (m : Memory) (v : ℕ) (prev next : Option Address) (c : Cell)
    → IsCell m c next
    → (c.data_of == v) ≡ false
    → delete_loop (suc fuel) m v prev (some c.address) ≡ delete_loop fuel m v (some c.address) next
unfolding delete_loop
delete_loop-next fuel m v prev next c h e = rw h.cell_value (rw h.cell_link (rw e refl))

loop-IsRemoved :
    (m : Memory) (q : Cell) (cells : List Cell) (v : ℕ)
    → Chain m (q ∷ cells)
    → IsDistinct (q ∷ cells)
    → (m' : Memory) × IsRemoved m q cells v m'
unfolding Chain IsDistinct Away delete_loop remove_first found
loop-IsRemoved m q [] v h d = (
  m,
  record {
    removed_run = refl;
    removed_chain = h;
    removed_head = refl;
    removed_freed = λ a f. absurd (cc);
    removed_same = λ x w. record { same_node = refl; same_in_use = refl };
  },
)
loop-IsRemoved m q (c ∷ cs) v h d = elim (Bool-cases (c.data_of == v)) [
  | inl e ↦ (
    take_out m (some q.address) c.address (first cs),
    record {
      removed_run = delete_loop-match (length (c ∷ cs)) m v (some q.address) (first cs) c h.1.0 e;
      removed_chain =
          subst (λ k. Chain (take_out m (some q.address) c.address (first cs)) (q ∷ k))
            (sym (remove_first-match v c cs e)) (Chain-take_out m q c cs h d);
      removed_head = refl;
      removed_freed = λ a f. found-freed m (some q.address) (first cs) v c cs a e f;
      removed_same = λ x w.
          take_out-SameAt m q.address c.address x (first cs) (λ k. w.0 (sym k))
            (λ k. w.1.0 (sym k));
    },
  )
  | inr e ↦
      let rest = loop-IsRemoved m c cs v h.1 d.1 in
      (
        rest.0,
        record {
          removed_run =
              delete_loop-next (suc (length cs)) m v (some q.address) (first cs) c h.1.0 e
              ∙ rest.1.removed_run;
          removed_chain =
              subst (λ k. Chain rest.0 (q ∷ k)) (sym (remove_first-next v c cs e))
                (IsCell-SameAt (rest.1.removed_same q.address d.0) h.0, rest.1.removed_chain);
          removed_head = rest.1.removed_head;
          removed_freed = λ a f. rest.1.removed_freed a (sym (found-next v c cs e) ∙ f);
          removed_same = λ x w. rest.1.removed_same x w.1;
        },
      )
]

-- What `delete` leaves: the list without the first node of value `v`, which is free, and nothing
-- outside of the list touched.
pub record IsDeleted (m : Memory) (cells : List Cell) (v : ℕ) (m' : Memory) : Type 0 where
  pub deleted_run : delete_loop (suc (length cells)) m v none m.head ≡ some m'
  pub deleted_list : IsList m' (remove_first v cells)
  pub deleted_freed : (a : Address) → found v cells ≡ some a → m'.in_use a ≡ false
  pub deleted_same : (x : Address) → Away x cells → SameAt m m' x

-- The loop of `delete`, run on a list in memory that has no cycle, ends within one round more than
-- the list has nodes, reads no unknown content, takes the first node with the value out of the
-- list (none, where there is none) and frees it, and touches nothing outside of the list.
pub delete_loop-IsDeleted :
    (m : Memory) (cells : List Cell) (v : ℕ)
    → IsList m cells
    → (m' : Memory) × IsDeleted m cells v m'
unfolding Chain IsDistinct Away delete_loop remove_first found
delete_loop-IsDeleted m [] v h = (
  m,
  record {
    deleted_run = ap (delete_loop 1 m v none) h.list_head;
    deleted_list = h;
    deleted_freed = λ a f. absurd (cc);
    deleted_same = λ x w. record { same_node = refl; same_in_use = refl };
  },
)
delete_loop-IsDeleted m (c ∷ cs) v h = elim (Bool-cases (c.data_of == v)) [
  | inl e ↦ (
    take_out m none c.address (first cs),
    record {
      deleted_run =
          ap (delete_loop (suc (length (c ∷ cs))) m v none) h.list_head
          ∙ (delete_loop-match (length (c ∷ cs)) m v none (first cs) c h.list_chain.0 e);
      deleted_list = rw (remove_first-match v c cs e) (record {
        list_head = refl;
        list_chain =
            Chain-frame (λ x d. take_head-SameAt m c.address x (first cs) d) cs h.list_distinct.0
              h.list_chain.1;
        list_distinct = h.list_distinct.1;
      });
      deleted_freed = λ a f. found-freed m none (first cs) v c cs a e f;
      deleted_same = λ x w. take_head-SameAt m c.address x (first cs) (λ k. w.0 (sym k));
    },
  )
  | inr e ↦
      let rest = loop-IsRemoved m c cs v h.list_chain h.list_distinct in
      (
        rest.0,
        record {
          deleted_run =
              ap (delete_loop (suc (length (c ∷ cs))) m v none) h.list_head
              ∙ (delete_loop-next (suc (length cs)) m v none (first cs) c h.list_chain.0 e
                  ∙ rest.1.removed_run);
          deleted_list = rw (remove_first-next v c cs e) (record {
            list_head = rest.1.removed_head ∙ h.list_head;
            list_chain = rest.1.removed_chain;
            list_distinct = (
              Away-remove_first c.address v cs h.list_distinct.0,
              remove_first-IsDistinct v cs h.list_distinct.1,
            );
          });
          deleted_freed = λ a f. rest.1.removed_freed a (sym (found-next v c cs e) ∙ f);
          deleted_same = rest.1.removed_same;
        },
      )
]
