-- ===== src/Downloader/Queues.antt =====
-- The queues keep every task: what goes in comes out once.
use oget.Prelude.{
  ℕ, ◌+◌, ◌≤◌, ◌≡◌, refl, some, List, [], ◌∷◌, ◌++◌, arith, ltb, length, length-append, Bool-cases,
  Option-cases, inl, inr,
}
use oget.Prelude.Text.{Bytes, str_eq, is_empty}
use oget.Task.{ChunkTask}
use oget.Downloader.{Queues, queue_capacity, get_host_queue, send, receive, scan, next_task}

-- the sum of f over a list
abbrev pub sum {ℓ} : {A : Type ℓ} → (A → ℕ) → List A → ℕ
sum f [] = 0
sum f (x ∷ xs) = f x + sum f xs

pub sum-append {ℓ} :
    {A : Type ℓ} (f : A → ℕ) (xs ys : List A) → sum f (xs ++ ys) ≡ sum f xs + sum f ys
sum-append f [] ys = omega arith
sum-append f (x ∷ xs) ys = omega (arith, sum-append f xs ys)

-- the sum of f over the tasks of all queues
abbrev pub total : (ChunkTask → ℕ) → Queues → ℕ
total f [] = 0
total f ((h, q) ∷ qs) = sum f q + total f qs

-- No queue holds more than its channel can.
abbrev pub AreBounded : Queues → Type 0
AreBounded [] = Unit
AreBounded ((h, q) ∷ qs) = (length q ≤ queue_capacity) × AreBounded qs

pub total-get_host_queue :
    (f : ChunkTask → ℕ) (host : Bytes) (qs : Queues) → total f (get_host_queue host qs) ≡ total f qs
unfolding get_host_queue
total-get_host_queue f host [] = refl
total-get_host_queue f host ((h, q) ∷ qs) = ground (arith, total-get_host_queue f host qs)

pub get_host_queue-AreBounded :
    (host : Bytes) (qs : Queues) → AreBounded qs → AreBounded (get_host_queue host qs)
unfolding get_host_queue
get_host_queue-AreBounded host [] b = (omega arith, tt)
get_host_queue-AreBounded host ((h, q) ∷ qs) (l, b) = elim (Bool-cases (str_eq h host)) [
  | inl e ↦ rw e (l, b)
  | inr e ↦ rw e (l, get_host_queue-AreBounded host qs b)
]

-- A send adds the task and nothing else, and keeps the bounds.
pub send-total :
    (f : ChunkTask → ℕ) (host : Bytes) (t : ChunkTask) (qs qs' : Queues)
    → send host t qs ≡ some qs'
    → (total f qs' ≡ total f qs + f t) × (AreBounded qs → AreBounded qs')
unfolding send
send-total f host t [] qs' e = cc
send-total f host t ((h, q) ∷ qs) qs' e = elim (Bool-cases (str_eq h host)) [
  | inl same ↦ elim (Bool-cases (ltb (length q) queue_capacity)) [
    | inl room ↦ ground (arith, sum-append f q (t ∷ []), length-append q (t ∷ []))
    | inr full ↦ ground arith
  ]
  | inr other ↦ elim (Option-cases (send host t qs)) [
    | inl n ↦ ground arith
    | inr (rs, r) ↦ ground (arith, send-total f host t qs rs r)
  ]
]

pub receive-total :
    (f : ChunkTask → ℕ) (host : Bytes) (qs : Queues) (t : ChunkTask) (qs' : Queues)
    → receive host qs ≡ some (t, qs')
    → (total f qs ≡ f t + total f qs') × (AreBounded qs → AreBounded qs')
unfolding receive
receive-total f host [] t qs' e = cc
receive-total f host ((h, []) ∷ qs) t qs' e = elim (Option-cases (receive host qs)) [
  | inl n ↦ ground arith
  | inr ((x, rs), r) ↦ ground (arith, receive-total f host qs x rs r)
]
receive-total f host ((h, x ∷ q) ∷ qs) t qs' e = elim (Option-cases (receive host qs)) [
  | inl n ↦ ground arith
  | inr ((y, rs), r) ↦ ground (arith, receive-total f host qs y rs r)
]

pub scan-total :
    (f : ChunkTask → ℕ) (qs : Queues) (t : ChunkTask) (h : Bytes) (qs' : Queues)
    → scan qs ≡ some (t, h, qs')
    → (total f qs ≡ f t + total f qs') × (AreBounded qs → AreBounded qs')
unfolding scan
scan-total f [] t h qs' e = cc
scan-total f ((k, x ∷ q) ∷ qs) t h qs' e = ground arith
scan-total f ((k, []) ∷ qs) t h qs' e = elim (Option-cases (scan qs)) [
  | inl n ↦ ground arith
  | inr ((y, k', rs), r) ↦ ground (arith, scan-total f qs y k' rs r)
]

pub next_task-total :
    (f : ChunkTask → ℕ) (current : Bytes) (qs : Queues) (t : ChunkTask) (h : Bytes) (qs' : Queues)
    → next_task current qs ≡ some (t, h, qs')
    → (total f qs ≡ f t + total f qs') × (AreBounded qs → AreBounded qs')
unfolding next_task
next_task-total f current qs t h qs' e = elim (Bool-cases (is_empty current)) [
  | inl n ↦ scan-total f qs t h qs' (ground arith)
  | inr n ↦ elim (Option-cases (receive current qs)) [
    | inl r ↦ scan-total f qs t h qs' (ground arith)
    | inr ((x, rs), r) ↦ receive-total f current qs t qs' (ground arith)
  ]
]
