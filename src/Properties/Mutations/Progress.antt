-- ===== src/Properties/Mutations/Progress.antt =====
-- A run of the workers cannot get stuck, and cannot go on for ever.
use Prim.Native.Nat.{◌*◌}
use godoo_py.Base.{
  ℕ, ℤ, ◌+◌, ◌<◌, ◌≡◌, refl, ◌⊎◌, inl, inr, true, false, List, [], ◌∷◌, ◌++◌, length, arith, ap, ok,
}
use godoo_py.Value.{bool}
use godoo_py.Base.Dict.{Dict}
use godoo_py.Properties.Mutations.{
  Payload, Worker, ready, writing, finished, Batch, Step, take, answer, stop, is_finished,
}

abbrev weight : Worker → ℕ
weight ready = 1
weight (writing _) = 2
weight finished = 0

abbrev weights : List Worker → ℕ
weights [] = 0
weights (w ∷ ws) = weight w + weights ws

weights-append : (l r : List Worker) → weights (l ++ r) ≡ weights l + weights r
weights-append [] r = omega arith
weights-append (w ∷ l) r = omega (arith, weights-append l r)

-- What is left to do
abbrev pub work : Batch → ℕ
work b = 2 * length b.queue + weights b.workers

unfinished :
    (ws : List Worker)
    → is_finished ws ≡ false
    → (l r : List Worker) × (w : Worker) × (ws ≡ l ++ w ∷ r) × (is_finished (w ∷ []) ≡ false)
unfinished [] h = absurd (ground arith)
unfinished (ready ∷ ws) h = ([], ws, ready, refl, refl)
unfinished (writing x ∷ ws) h = ([], ws, writing x, refl, refl)
unfinished (finished ∷ ws) h =
    let (l, r, w, e, left) = unfinished ws h in (finished ∷ l, r, w, ap (λ t. finished ∷ t) e, left)

-- Each move of a worker leaves less to do.
pub Step-work : (b c : Batch) → Step b c → work c < work b
Step-work b c (take l r rid payload rest eb eq ec) = omega (
  arith,
  ap work ec,
  ap weights eb,
  ap (λ t. length t) eq,
  weights-append l (ready ∷ r),
  weights-append l (writing rid ∷ r),
)
Step-work b c (answer l r rid outcome eb ec) = omega (
  arith,
  ap work ec,
  ap weights eb,
  weights-append l (ready ∷ r),
  weights-append l (writing rid ∷ r),
)
Step-work b c (stop l r eb eq ec) = omega (
  arith,
  ap work ec,
  ap weights eb,
  weights-append l (ready ∷ r),
  weights-append l (finished ∷ r),
)

queue-cases :
    (q : Dict ℤ Payload)
    → (q ≡ [])
      ⊎ ((rid : ℤ) × (payload : Payload) × (rest : Dict ℤ Payload) × (q ≡ (rid, payload) ∷ rest))
queue-cases [] = inl refl
queue-cases ((rid, payload) ∷ rest) = inr (rid, payload, rest, refl)

move_worker :
    (b : Batch) (l r : List Worker) (w : Worker)
    → b.workers ≡ l ++ w ∷ r
    → is_finished (w ∷ []) ≡ false
    → (c : Batch) × Step b c
move_worker b l r finished eb left = absurd (ground arith)
move_worker b l r (writing rid) eb left = (_, answer l r rid (ok (bool true)) eb refl)
move_worker b l r ready eb left = elim (queue-cases b.queue) [
  | inl e ↦ (_, stop l r eb e refl)
  | inr (rid, payload, rest, e) ↦ (_, take l r rid payload rest eb e refl)
]

-- Each move of a worker leaves less to do, and a batch with an unfinished worker has a move: so every
-- run ends, and it ends only when all workers have ended.
pub dispatch_progress :
    (b : Batch)
    → ((c : Batch) → Step b c → work c < work b)
      × (is_finished b.workers ≡ false → (c : Batch) × Step b c)
dispatch_progress b = (
  Step-work b,
  λ h. let (l, r, w, e, left) = unfinished b.workers h in move_worker b l r w e left,
)
