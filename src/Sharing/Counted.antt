-- ===== src/Sharing/Counted.antt =====
-- At most three threads are at the resource, and not all wait (Concurrency3/prob1_conc3.c).
use cs444_operating_systems.Prelude.{
  ℕ, suc, ◌+◌, ◌≤◌, ◌≡◌, ◌≢◌, refl, sym, ◌∙◌, ap, true, false, ◌==◌, arith, if◌then◌else◌,
}
use cs444_operating_systems.Prelude.Int.{pos}
use cs444_operating_systems.Prelude.Sums.{Moved}
use cs444_operating_systems.Sharing.{
  Pc, enter, inside, blocked, woken, leave, leaving, Shared, activate, deactivate, Move, wait_mutex,
  must_block, go_in, wait_blocker, wake, wait_again, go_out,
}

-- Which threads hold `mutex`; which of them have not been counted yet.
abbrev pub holds_mutex : Pc → ℕ
holds_mutex inside = 1
holds_mutex leaving = 1
holds_mutex _ = 0

abbrev pub deciding : Pc → ℕ
deciding inside = 1
deciding _ = 0

-- Which use the resource: from `active++` to `active--`.
abbrev pub uses : Pc → ℕ
uses leave = 1
uses leaving = 1
uses _ = 0

-- Which do not wait for `blocker`.
abbrev pub free : Pc → ℕ
free blocked = 0
free _ = 1

pub record IsCounted (s : Shared) (count : (Pc → ℕ) → ℕ) : Type 0 where
  pub mutex_held : s.mutex + count holds_mutex ≡ 1
  pub active_counted : s.active ≡ pos (count uses)
  pub at_most_three : count uses ≤ 3
  pub room_left : s.must_wait ≡ false → count uses ≤ 2
  pub some_use : s.must_wait ≡ true → 1 ≤ count uses
  pub some_free : 1 ≤ count free

activate_lem :
    (s : Shared) (a : ℕ)
    → s.waiting ≡ pos 0
    → s.active ≡ pos a
    → ((activate s).mutex ≡ s.mutex + 1)
      × ((activate s).active ≡ pos (a + 1))
      × ((activate s).must_wait ≡ (a + 1 == 3))
unfolding activate
activate_lem s a w h = rw (w, h) (refl, refl, refl)

deactivate_lem :
    (s : Shared) (a : ℕ)
    → s.waiting ≡ pos 0
    → s.active ≡ pos (suc a)
    → ((deactivate s).mutex ≡ s.mutex + 1)
      × ((deactivate s).active ≡ pos a)
      × ((deactivate s).must_wait ≡ (if a == 0 then false else s.must_wait))
unfolding deactivate
deactivate_lem s a w h = rw (w, h) (refl, refl, refl)

module _ {s t : Shared} {p q : Pc} {count count' : (Pc → ℕ) → ℕ} (h : IsCounted s count)
    (move : Moved count count' p q) where
  -- A move of one thread that takes or gives the mutex only.
  keeps_users :
      uses p ≡ uses q
      → t.active ≡ s.active
      → t.must_wait ≡ s.must_wait
      → t.mutex + count' holds_mutex ≡ 1
      → 1 ≤ count' free
      → IsCounted t count'
  keeps_users u a w m f =
      let k = move.moved uses in
      let same : count' uses ≡ count uses = omega arith in
      record {
        mutex_held = m;
        active_counted = rw (a, same) h.active_counted;
        at_most_three = rw same h.at_most_three;
        room_left = λ e. rw same (h.room_left (sym w ∙ e));
        some_use = λ e. rw same (h.some_use (sym w ∙ e));
        some_free = f;
      }

module _ {s : Shared} {count count' : (Pc → ℕ) → ℕ} (h : IsCounted s count)
    (waiting : s.waiting ≡ pos 0) where
  go_in-IsCounted :
      Moved count count' inside leave → s.must_wait ≡ false → IsCounted (activate s) count'
  go_in-IsCounted move e =
      let a = activate_lem s (count uses) waiting h.active_counted in
      let k0 = move.moved holds_mutex in
      let b0 = move.has holds_mutex in
      let k1 = move.moved uses in
      let k2 = move.moved free in
      let most = h.room_left e in
      let more : count' uses ≡ count uses + 1 = omega arith in
      let m = h.mutex_held in
      let f = h.some_free in
      record {
        mutex_held = omega (arith, a.0);
        active_counted = a.1 ∙ ap pos (sym more);
        at_most_three = omega arith;
        room_left = λ r. let w = sym a.2 ∙ r in ground arith;
        some_use = λ r. omega arith;
        some_free = omega arith;
      }

  go_out-IsCounted : Moved count count' leaving enter → IsCounted (deactivate s) count'
  go_out-IsCounted move =
      let k0 = move.moved holds_mutex in
      let b0 = move.has holds_mutex in
      let k1 = move.moved uses in
      let b1 = move.has uses in
      let k2 = move.moved free in
      let one_more : count uses ≡ suc (count' uses) = omega arith in
      let a = deactivate_lem s (count' uses) waiting (h.active_counted ∙ ap pos one_more) in
      let most = h.at_most_three in
      let m = h.mutex_held in
      let f = h.some_free in
      record {
        mutex_held = omega (arith, a.0);
        active_counted = a.1;
        at_most_three = omega arith;
        room_left = λ r. omega arith;
        some_use = λ r. let w = sym a.2 ∙ r in ground arith;
        some_free = omega arith;
      }

-- A move keeps the counts, where `blocker` is 0 and no thread is past it.
pub keeps :
    {s t : Shared} {p q : Pc} {count count' : (Pc → ℕ) → ℕ}
    → IsCounted s count
    → Moved count count' p q
    → count deciding + count uses ≤ count free
    → s.blocker ≡ 0
    → s.waiting ≡ pos 0
    → p ≢ woken
    → Move s p t q
    → IsCounted t count'
keeps h move below b w d (wait_mutex g) =
    let k0 = move.moved holds_mutex in
    let k1 = move.moved free in
    let m = h.mutex_held in
    let f = h.some_free in keeps_users h move refl refl refl (omega arith) (omega arith)
keeps h move below b w d (must_block e) =
    let k0 = move.moved holds_mutex in
    let k1 = move.moved free in
    let b0 = move.has deciding in
    let m = h.mutex_held in
    let u = h.some_use e in keeps_users h move refl refl refl (omega arith) (omega arith)
keeps h move below b w d (go_in e) = go_in-IsCounted h w move e
keeps h move below b w d (wait_blocker g) = absurd (omega arith)
keeps h move below b w d wake = absurd (d refl)
keeps h move below b w d (wait_again g) =
    let k0 = move.moved holds_mutex in
    let k1 = move.moved free in
    let m = h.mutex_held in
    let f = h.some_free in keeps_users h move refl refl refl (omega arith) (omega arith)
keeps h move below b w d go_out = go_out-IsCounted h w move
