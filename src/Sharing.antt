-- ===== src/Sharing.antt =====
-- Concurrency3/prob1_conc3.c: a resource that at most three threads share.
-- A semaphore is its count. A thread's step is one `sem_wait` that succeeds, or what it does from
-- there to its next `sem_post`, that one included. Printing and sleeping are left out.
pub mod Blocked
pub mod Counted
pub mod Limit
mod Tests
use cs444_operating_systems.Prelude.{
  ℕ, zero, suc, ◌+◌, ◌-◌, ◌<◌, ◌≡◌, Bool, true, false, ◌==◌, ltb, if◌then◌else◌,
}
use cs444_operating_systems.Prelude.Int.{ℤ, pos, negsuc}

-- Where a thread stands in `shareable`.
pub data Pc : Type 0 where
  enter : Pc  -- before the first `sem_wait(&mutex)`
  inside : Pc  -- after it
  blocked : Pc  -- before `sem_wait(&blocker)`
  woken : Pc  -- after it
  leave : Pc  -- before the second `sem_wait(&mutex)`
  leaving : Pc  -- after it

pub record Shared : Type 0 where
  pub mutex : ℕ
  pub blocker : ℕ
  pub active : ℤ
  pub waiting : ℤ
  pub must_wait : Bool

abbrev pub increment : ℤ → ℤ
increment (pos n) = pos (n + 1)
increment (negsuc zero) = pos 0
increment (negsuc (suc n)) = negsuc n

abbrev pub decrement : ℤ → ℤ
decrement (pos zero) = negsuc 0
decrement (pos (suc n)) = pos n
decrement (negsuc n) = negsuc (n + 1)

abbrev pub is : ℕ → ℤ → Bool
is n (pos m) = m == n
is n (negsuc m) = false

abbrev pub is_positive : ℤ → Bool
is_positive (pos n) = ltb 0 n
is_positive (negsuc n) = false

abbrev pub post_blocker : Shared → Shared
post_blocker s = record s { blocker = s.blocker + 1 }

abbrev pub post_mutex : Shared → Shared
post_mutex s = record s { mutex = s.mutex + 1 }

-- From `active++` to the `sem_post`.
unfoldable pub activate : Shared → Shared
activate s =
    let active' = increment s.active in
    let s' = record s { active = active'; must_wait = is 3 active' } in
    if (if is_positive s'.waiting then (if s'.must_wait then false else true) else false)
    then post_blocker s'
    else post_mutex s'

-- From `active--` to the `sem_post`.
unfoldable pub deactivate : Shared → Shared
deactivate s =
    let active' = decrement s.active in
    let s' = record s {
      active = active';
      must_wait = if is 0 active' then false else s.must_wait;
    } in
    if (if is 0 s'.waiting then false else (if s'.must_wait then false else true))
    then post_blocker s'
    else post_mutex s'

-- One step of a thread.
pub data Move (s : Shared) : Pc → Shared → Pc → Type 0 where
  wait_mutex : 0 < s.mutex → Move s enter (record s { mutex = s.mutex - 1 }) inside
  must_block : s.must_wait ≡ true → Move s inside (post_mutex s) blocked
  go_in : s.must_wait ≡ false → Move s inside (activate s) leave
  wait_blocker : 0 < s.blocker → Move s blocked (record s { blocker = s.blocker - 1 }) woken
  wake : Move s woken (activate (record s { waiting = decrement s.waiting })) leave
  wait_again : 0 < s.mutex → Move s leave (record s { mutex = s.mutex - 1 }) leaving
  go_out : Move s leaving (deactivate s) enter

pub record System : Type 0 where
  pub shared : Shared
  pub pc : ℕ → Pc

abbrev pub update : (ℕ → Pc) → ℕ → Pc → ℕ → Pc
update f i p j = if j == i then p else f j

pub data Step (n : ℕ) (s : System) : System → Type 0 where
  pick :
      (i : ℕ) {m : Shared} {p : Pc}
      → i < n
      → Move s.shared (s.pc i) m p
      → Step n s (record { shared = m; pc = update s.pc i p })

-- `main`, with `n` threads.
abbrev pub start : System
start = record {
  shared = record { mutex = 1; blocker = 0; active = pos 0; waiting = pos 0; must_wait = false };
  pc = λ i. enter;
}

pub data Steps (n : ℕ) (s : System) : System → Type 0 where
  here : Steps n s s
  later : {t u : System} → Steps n s t → Step n t u → Steps n s u
