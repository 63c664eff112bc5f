-- ===== src/Panic.antt =====
-- Go code that may panic or block for ever, as a value.

use ipfs_crawler.Prelude.{◌≡◌, refl}

pub data Fault : Type 0 where
  -- `panic("empty queue")`, and `panic("received result for untracked crawl")`
  empty_queue untracked_crawl : Fault
  -- a slice index out of range, a `nil` dereference
  out_of_range nil_dereference : Fault
  -- a send on a full channel by the only goroutine that would drain it
  deadlock : Fault
  -- `make` with a size that the runtime does not give
  bad_size : Fault
  -- a wait that never ends
  blocked : Fault
  -- a send on a closed channel, or a second close of it
  closed_channel : Fault
  -- a type assertion that fails
  failed_assertion : Fault
  -- the calls of `panic` elsewhere
  bad_plugin parallel_requests invalid_protocol bad_cpl : Fault

pub data Exec (A : Type 0) : Type 0 where
  ok : A → Exec A
  fault : Fault → Exec A

infixl 5 ◌>>=◌
abbrev pub ◌>>=◌ : {A B : Type 0} → Exec A → (A → Exec B) → Exec B
ok a >>= f = f a
fault e >>= f = fault e

-- The computation returns a value, and the value satisfies `P`.
abbrev pub Returns : {A : Type 0} → Exec A → (A → Type 0) → Type 0
Returns (ok a) P = P a
Returns (fault e) P = ⊥

pub Returns-bind :
    {A B : Type 0} (m : Exec A) (f : A → Exec B) (P : A → Type 0) (Q : B → Type 0)
    → Returns m P
    → ((a : A) → P a → Returns (f a) Q)
    → Returns (m >>= f) Q
Returns-bind (ok a) f P Q h k = k a h
Returns-bind (fault e) f P Q h k = h

pub Returns-value :
    {A : Type 0} (m : Exec A) (P : A → Type 0) → Returns m P → (a : A) × (m ≡ ok a) × P a
Returns-value (ok a) P h = (a, refl, h)
Returns-value (fault e) P h = absurd h

-- If the computation returns a value, it satisfies `P`.
abbrev pub WhenOk : {A : Type 0} → Exec A → (A → Type 0) → Type 0
WhenOk (ok a) P = P a
WhenOk (fault e) P = Unit {0}

pub WhenOk-bind :
    {A B : Type 0} (m : Exec A) (f : A → Exec B) (P : A → Type 0) (Q : B → Type 0)
    → WhenOk m P
    → ((a : A) → P a → WhenOk (f a) Q)
    → WhenOk (m >>= f) Q
WhenOk-bind (ok a) f P Q h k = k a h
WhenOk-bind (fault e) f P Q h k = tt

pub Returns-WhenOk : {A : Type 0} (m : Exec A) (P : A → Type 0) → Returns m P → WhenOk m P
Returns-WhenOk (ok a) P h = h
Returns-WhenOk (fault e) P h = tt
