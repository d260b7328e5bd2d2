-- ===== src/Router/Queues.antt =====
-- What a step adds to the queue of data packets.
use zprd.Prelude.{
  ◌≡◌, inl, inr, refl, ap, ◌∙◌, [], ◌∷◌, ◌++◌, Bool, true, false, Bool-cases, is_empty,
  if◌then◌else◌,
}
use zprd.Sender.{SendData, enqueue_data, front_is_local}
use zprd.Router.{Router, enqueue}

-- At most one packet, with this property, is added to the queue.
pub data Queues (P : SendData → Type 0) (s t : Router) : Type 0 where
  idle : t.sender.tasks ≡ s.sender.tasks → Queues P s t
  adds : (dat : SendData) → t.sender.tasks ≡ s.sender.tasks ++ (dat ∷ []) → P dat → Queues P s t

pub enqueue-Queues :
    (P : SendData → Type 0) (dat : SendData) (s t : Router)
    → t.sender ≡ s.sender
    → P dat
    → P (record dat { dests = [] })
    → Queues P s (enqueue dat t)
unfolding enqueue_data
enqueue-Queues P dat s t same h k = elim (Bool-cases (is_empty dat.dests)) [
  | inl nobody ↦ idle (rw (nobody, same) refl)
  | inr somebody ↦ elim (Bool-cases (front_is_local t.heap dat.dests)) [
    | inl here ↦ adds (record dat { dests = [] }) (rw (somebody, here, same) refl) k
    | inr there ↦ adds dat (rw (somebody, there, same) refl) h
  ]
]

pub Queues-if :
    (P : SendData → Type 0) (s t u : Router) (b : Bool)
    → Queues P s t
    → Queues P s u
    → Queues P s (if b then t else u)
Queues-if P s t u true h k = h
Queues-if P s t u false h k = k

pub Queues-cases :
    (P : SendData → Type 0) (s t u : Router) (b : Bool)
    → (b ≡ true → Queues P s t)
    → (b ≡ false → Queues P s u)
    → Queues P s (if b then t else u)
Queues-cases P s t u true h k = h refl
Queues-cases P s t u false h k = k refl

pub Queues-map :
    (P Q : SendData → Type 0) (s t : Router)
    → ((dat : SendData) → P dat → Q dat)
    → Queues P s t
    → Queues Q s t
Queues-map P Q s t f (idle kept) = idle kept
Queues-map P Q s t f (adds dat added h) = adds dat added (f dat h)

pub Queues-sender :
    (P : SendData → Type 0) (s t u : Router) → u.sender ≡ t.sender → Queues P s t → Queues P s u
Queues-sender P s t u same (idle kept) = idle (ap (λ q. q.tasks) same ∙ kept)
Queues-sender P s t u same (adds dat added h) = adds dat (ap (λ q. q.tasks) same ∙ added) h
