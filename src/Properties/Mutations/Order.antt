-- ===== src/Properties/Mutations/Order.antt =====
-- Records are started once each, in the order of the payloads, and no more at a time than allowed.
use godoo_py.Base.{
  ℕ, zero, suc, ◌+◌, ◌≤◌, min, ℤ, ◌≡◌, refl, List, [], ◌∷◌, ◌++◌, length, length-append, ◌∙◌, arith,
}
use godoo_py.Base.Dict.{Dict, keys}
use godoo_py.Properties.Mutations.{
  Payload, Worker, ready, writing, finished, Batch, ready_workers, start, Step, take, answer, stop,
  Reach, here, next,
}

-- The writes in flight
abbrev pub in_flight : List Worker → ℕ
in_flight [] = 0
in_flight (writing _ ∷ ws) = suc (in_flight ws)
in_flight (_ ∷ ws) = in_flight ws

in_flight-le : (ws : List Worker) → in_flight ws ≤ length ws
in_flight-le [] = omega arith
in_flight-le (ready ∷ ws) = omega (arith, in_flight-le ws)
in_flight-le (writing r ∷ ws) = omega (arith, in_flight-le ws)
in_flight-le (finished ∷ ws) = omega (arith, in_flight-le ws)

in_flight-append : (l r : List Worker) → in_flight (l ++ r) ≡ in_flight l + in_flight r
in_flight-append [] r = omega arith
in_flight-append (ready ∷ l) r = omega (arith, in_flight-append l r)
in_flight-append (writing x ∷ l) r = omega (arith, in_flight-append l r)
in_flight-append (finished ∷ l) r = omega (arith, in_flight-append l r)

pub length-ready_workers : (n : ℕ) → length (ready_workers n) ≡ n
length-ready_workers zero = refl
length-ready_workers (suc n) = omega (arith, length-ready_workers n)

-- A step changes one worker in its place.
length-replaced : (l r : List Worker) (v w : Worker) → length (l ++ v ∷ r) ≡ length (l ++ w ∷ r)
length-replaced l r v w = omega (arith, length-append {0} l (v ∷ r), length-append {0} l (w ∷ r))

Step-length : {b c : Batch} → Step b c → length c.workers ≡ length b.workers
Step-length (take l r rid payload rest eb eq ec) =
    rw (ec, eb) (length-replaced l r (writing rid) ready)
Step-length (answer l r rid outcome eb ec) = rw (ec, eb) (length-replaced l r ready (writing rid))
Step-length (stop l r eb eq ec) = rw (ec, eb) (length-replaced l r finished ready)

pub Reach-length : {a b : Batch} → Reach a b → length b.workers ≡ length a.workers
Reach-length here = refl
Reach-length (next r s) = Step-length s ∙ Reach-length r

-- Never are more than `concurrency` writes in flight, in whatever order the workers run.
pub in_flight-le-concurrency :
    (payloads : Dict ℤ Payload) (concurrency : ℕ) (b : Batch)
    → Reach (start payloads concurrency) b
    → in_flight b.workers ≤ concurrency
unfolding start
in_flight-le-concurrency payloads concurrency b run = omega (
  arith,
  in_flight-le b.workers,
  Reach-length run,
  length-ready_workers (min concurrency (length payloads)),
)

-- The reverse of the first list, before the second
abbrev pub reverse_onto {ℓ} : {A : Type ℓ} → List A → List A → List A
reverse_onto [] ys = ys
reverse_onto (x ∷ xs) ys = reverse_onto xs (x ∷ ys)

Step-order :
    {b c : Batch}
    → Step b c
    → reverse_onto c.started (keys c.queue) ≡ reverse_onto b.started (keys b.queue)
Step-order (take l r rid payload rest eb eq ec) = rw (ec, eq)
Step-order (answer l r rid outcome eb ec) = rw ec
Step-order (stop l r eb eq ec) = rw ec

pub Reach-order :
    {a b : Batch}
    → Reach a b
    → reverse_onto b.started (keys b.queue) ≡ reverse_onto a.started (keys a.queue)
Reach-order here = refl
Reach-order (next r s) = Step-order s ∙ Reach-order r

-- At every moment the records that have been started, in the order of their starts, and those still in
-- the queue make up the payloads in their order: none is skipped, repeated or overtaken.
pub started-in_order :
    (payloads : Dict ℤ Payload) (concurrency : ℕ) (b : Batch)
    → Reach (start payloads concurrency) b
    → reverse_onto b.started (keys b.queue) ≡ keys payloads
unfolding start
started-in_order payloads concurrency b run = Reach-order run
