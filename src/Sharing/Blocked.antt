-- ===== src/Sharing/Blocked.antt =====
-- A thread that blocks is never woken (Concurrency3/prob1_conc3.c).
use cs444_operating_systems.Prelude.{ℕ, ◌≡◌, ◌≢◌, refl, ◌∙◌, ◌==◌, arith, inl, inr, Bool-cases}
use cs444_operating_systems.Prelude.Int.{pos}
use cs444_operating_systems.Sharing.{
  Pc, blocked, woken, Shared, activate, deactivate, Move, wait_mutex, must_block, go_in,
  wait_blocker, wake, wait_again, go_out, System, Step, pick, start, Steps, here, later,
}

-- `waiting` is never counted up, so `blocker` is never posted and nobody gets past it.
pub record NoneWoken (s : System) : Type 0 where
  pub no_post : s.shared.blocker ≡ 0
  pub no_count : s.shared.waiting ≡ pos 0
  pub none_woken : (i : ℕ) → s.pc i ≢ woken

activate-keeps :
    (s : Shared)
    → s.waiting ≡ pos 0
    → ((activate s).blocker ≡ s.blocker) × ((activate s).waiting ≡ s.waiting)
unfolding activate
activate-keeps s h = rw h (refl, refl)

deactivate-keeps :
    (s : Shared)
    → s.waiting ≡ pos 0
    → ((deactivate s).blocker ≡ s.blocker) × ((deactivate s).waiting ≡ s.waiting)
unfolding deactivate
deactivate-keeps s h = rw h (refl, refl)

-- One thread's step keeps both, does not wake it, and is none of a blocked thread.
Move-keeps :
    {s t : Shared} {p q : Pc}
    → s.blocker ≡ 0
    → s.waiting ≡ pos 0
    → p ≢ woken
    → Move s p t q
    → (t.blocker ≡ 0) × (t.waiting ≡ pos 0) × (q ≢ woken) × (p ≢ blocked)
Move-keeps b w d (wait_mutex h) = (b, w, λ e. absurd (cc), λ e. absurd (cc))
Move-keeps b w d (must_block h) = (b, w, λ e. absurd (cc), λ e. absurd (cc))
Move-keeps {s} b w d (go_in h) =
    let k = activate-keeps s w in (k.0 ∙ b, k.1 ∙ w, λ e. absurd (cc), λ e. absurd (cc))
Move-keeps b w d (wait_blocker h) = absurd (omega arith)
Move-keeps b w d wake = absurd (d refl)
Move-keeps b w d (wait_again h) = (b, w, λ e. absurd (cc), λ e. absurd (cc))
Move-keeps {s} b w d go_out =
    let k = deactivate-keeps s w in (k.0 ∙ b, k.1 ∙ w, λ e. absurd (cc), λ e. absurd (cc))

Step-NoneWoken : {n : ℕ} {s t : System} → NoneWoken s → Step n s t → NoneWoken t
Step-NoneWoken {s} h (pick i {m} {p} low mv) =
    let k = Move-keeps h.no_post h.no_count (h.none_woken i) mv in
    record {
      no_post = k.0;
      no_count = k.1;
      none_woken = λ j e. elim (Bool-cases (j == i)) [
        | inl same ↦ k.2 (ground arith)
        | inr other ↦ h.none_woken j (ground arith)
      ];
    }

pub Steps-NoneWoken : {n : ℕ} {s t : System} → NoneWoken s → Steps n s t → NoneWoken t
Steps-NoneWoken h here = h
Steps-NoneWoken h (later r step) = Step-NoneWoken (Steps-NoneWoken h r) step

pub start-NoneWoken : NoneWoken start
start-NoneWoken = record { no_post = refl; no_count = refl; none_woken = λ i e. absurd (cc) }

Step-blocked :
    {n : ℕ} {s t : System} (i : ℕ) → NoneWoken s → s.pc i ≡ blocked → Step n s t → t.pc i ≡ blocked
Step-blocked {s} i h b (pick j {m} {p} low mv) =
    let k = Move-keeps h.no_post h.no_count (h.none_woken j) mv in
    elim (Bool-cases (i == j)) [ inl same ↦ absurd (k.3 (ground arith)) | inr other ↦ rw other b ]

Steps-append : {n : ℕ} {s t u : System} → Steps n s t → Steps n t u → Steps n s u
Steps-append r here = r
Steps-append r (later more step) = later (Steps-append r more) step

-- From a state that the program can reach and in which a thread waits for `blocker`, whatever steps
-- the threads make, the thread still waits there.
pub Steps-blocked :
    {n : ℕ} {s t : System} (i : ℕ)
    → Steps n start s
    → s.pc i ≡ blocked
    → Steps n s t
    → t.pc i ≡ blocked
Steps-blocked i r b here = b
Steps-blocked i r b (later more step) =
    Step-blocked i (Steps-NoneWoken start-NoneWoken (Steps-append r more))
      (Steps-blocked i r b more) step
