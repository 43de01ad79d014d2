-- ===== src/Modules/Retries.antt =====
-- The retries of a button method.
use godoo_py.Base.{
  [], ℕ, zero, suc, ◌+◌, ◌≤◌, String, ◌≡◌, ◌⊎◌, refl, inl, inr, true, false, ok, err, arith,
  Bool-cases, Result-cases,
}
use godoo_py.Value.{Value}
use godoo_py.Faults.{Fault, Checked}
use godoo_py.Client.{Client, Outside}
use godoo_py.Client.Guarded.{requests}
use godoo_py.Client.Counts.{call-requests}
use godoo_py.Modules.{
  Waiting, module_model, asleep, press, is_retried, press_args, attempts, call_with_ir_cron_retry,
}

module _ (outside : Outside) (waiting : Waiting) (module_id : Value) (method : String) where
  -- The `k`-th attempt, where every one before raised an exception that was slept over
  abbrev pub attempt_at : ℕ → Client → Checked Value × Client
  attempt_at zero s = press outside waiting module_id method s
  attempt_at (suc k) s =
      attempt_at k (asleep outside waiting (press outside waiting module_id method s).1)

  -- The first `k` attempts raised exceptions about a scheduled action.
  abbrev pub AreCron : ℕ → Client → Type 0
  AreCron zero s = Unit
  AreCron (suc k) s =
      let tried = press outside waiting module_id method s in
      (fault : Fault) × (tried.0 ≡ err fault)
      × (waiting.is_ir_cron_error tried.1.log fault ≡ true)
      × AreCron k (asleep outside waiting tried.1)

  -- The attempt returned, or raised an exception about something else.
  abbrev pub IsFinal : Checked Value × Client → Type 0
  IsFinal tried =
      ((v : Value) × (tried.0 ≡ ok v))
      ⊎ ((fault : Fault) × (tried.0 ≡ err fault)
          × (waiting.is_ir_cron_error tried.1.log fault ≡ false))

  -- The end of the attempts that start in a state with `left` more of them
  abbrev IsEnd : ℕ → Client → Type 0
  IsEnd left s =
      (k : ℕ) × (k ≤ left)
      × AreCron k s
      × (attempts outside waiting (suc left) module_id method s ≡ attempt_at k s)
      × (IsFinal (attempt_at k s) ⊎ (k ≡ left))

  -- One more attempt in front
  slept_over :
      (left : ℕ) (s : Client) (fault : Fault)
      → let tried = press outside waiting module_id method s in
        tried.0 ≡ err fault
        → waiting.is_ir_cron_error tried.1.log fault ≡ true
        → IsEnd left (asleep outside waiting tried.1)
        → IsEnd (suc left) s
  unfolding attempts
  slept_over left s fault raised cron (k, bound, earlier, e, final) = (
    suc k,
    omega arith,
    (fault, raised, cron, earlier),
    rw (raised, attempts) (rw (cron, attempts) e),
    elim final [ inl done ↦ inl done | inr last ↦ inr (omega arith) ],
  )

  returned_at_once :
      (left : ℕ) (s : Client) (v : Value)
      → (press outside waiting module_id method s).0 ≡ ok v
      → IsEnd left s
  unfolding attempts
  returned_at_once left s v returned =
      (0, omega arith, tt, rw (returned, attempts) refl, inl (inl (v, returned)))

  attempts-IsFinal : (left : ℕ) (s : Client) → IsEnd left s
  unfolding attempts
  attempts-IsFinal zero s = elim (Result-cases (press outside waiting module_id method s).0) [
    | inl (v, returned) ↦ returned_at_once zero s v returned
    | inr (fault, raised) ↦ (0, omega arith, tt, rw (raised, attempts) refl, inr refl)
  ]
  attempts-IsFinal (suc left) s =
      let tried = press outside waiting module_id method s in
      elim (Result-cases tried.0) [
        | inl (v, returned) ↦ returned_at_once (suc left) s v returned
        | inr (fault, raised) ↦ elim (Bool-cases (waiting.is_ir_cron_error tried.1.log fault)) [
          | inl cron ↦
              slept_over left s fault raised cron
                (attempts-IsFinal left (asleep outside waiting tried.1))
          | inr plain ↦ (
            0,
            omega arith,
            tt,
            rw (raised, attempts) (rw (plain, attempts) refl),
            inl (inr (fault, raised, plain)),
          )
        ]
      ]

  attempts-requests :
      (left : ℕ) (s : Client)
      → requests (attempts outside waiting left module_id method s).1.log ≤ requests s.log + left
  unfolding attempts
  attempts-requests zero s = omega arith
  attempts-requests (suc left) s =
      let tried = press outside waiting module_id method s in
      let sent = call-requests outside module_model method (press_args module_id) [] s in
      let rest = attempts-requests left (asleep outside waiting tried.1) in
      elim (Result-cases tried.0) [
        | inl (v, returned) ↦ rw (returned, attempts) (omega (arith, sent))
        | inr (fault, raised) ↦
            elim (Bool-cases (is_retried outside waiting left tried.1.log fault)) [
              | inl again ↦ rw (raised, attempts) (rw (again, attempts) (omega (arith, sent, rest)))
              | inr over ↦ rw (raised, attempts) (rw (over, attempts) (omega (arith, sent)))
            ]
      ]

  -- The button is pressed again exactly as long as the exception speaks of a scheduled action, three
  -- times at most; the last attempt decides, be it that it returned, that it raised something else, or
  -- that it was the third.
  pub call_with_ir_cron_retry-IsFinal :
      (s : Client)
      → ((k : ℕ) × (k ≤ 2)
          × AreCron k s
          × (call_with_ir_cron_retry outside waiting module_id method s ≡ attempt_at k s)
          × (IsFinal (attempt_at k s) ⊎ (k ≡ 2)))
        × (requests (call_with_ir_cron_retry outside waiting module_id method s).1.log
            ≤ requests s.log + 3)
  call_with_ir_cron_retry-IsFinal s = (attempts-IsFinal 2 s, attempts-requests 3 s)
