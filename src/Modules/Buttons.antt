-- ===== src/Modules/Buttons.antt =====
-- What installing, upgrading and uninstalling send.
use godoo_py.Base.{
  String, string_eq, ◌≡◌, ◌⊎◌, refl, inl, inr, zero, suc, ℕ, [], ◌∷◌, Bool-cases, Result-cases,
}
use godoo_py.Value.{Value, truthy, item, first_item, equals}
use godoo_py.Faults.{other}
use godoo_py.Safety.{read, infer_safety_level}
use godoo_py.Client.{Event, asked, sent, Client, Outside, Rpc}
use godoo_py.Client.Crud.{search_read}
use godoo_py.Client.Once.{call-SendsOnce}
use godoo_py.Client.Reads.{call-IsRead}
use godoo_py.Client.Traces.{
  Added, either-Adds, Adds, IsRead, IsQuestion, Added-refl, Added-trans, Added-cons, Added-map,
  Adds-pure, Adds-lift, Adds-raise, Adds->>=, Adds->>,
}
use godoo_py.Modules.{
  Waiting, module_model, find_module, asleep, press, is_retried, press_args, attempts,
  press_and_fetch, install_module, uninstall_module, upgrade_module,
}

-- A question, a request of the READ level, or a press of the button
abbrev pub OnlyPresses : String → Event → Type 0
OnlyPresses method (asked op) = Unit
OnlyPresses method (sent r) =
    (infer_safety_level r.method ≡ read) ⊎ (r.model ≡ module_model) × (r.method ≡ method)

module _ (method : String) where
  read_presses : (e : Event) → IsRead e → OnlyPresses method e
  read_presses (asked op) h = absurd h
  read_presses (sent r) h = inl h

  question_presses : (e : Event) → IsQuestion e → OnlyPresses method e
  question_presses (asked op) h = tt
  question_presses (sent r) h = absurd h

  Adds-presses : {A : Type 0} (m : Rpc A) → Adds IsRead m → Adds (OnlyPresses method) m
  Adds-presses m h = record {
    added = λ s. Added-map IsRead (OnlyPresses method) read_presses s.log _ (h.added s);
  }

module _ (outside : Outside) where
  find_module-IsRead : (module_name : String) → Adds IsRead (find_module outside module_name)
  unfolding find_module search_read infer_safety_level
  find_module-IsRead module_name =
      Adds->>= IsRead _ _ (call-IsRead outside module_model "search_read" _ refl _) (λ results.
        either-Adds IsRead (truthy results) _ _ (Adds-lift IsRead (first_item results))
          (Adds-raise Value IsRead other))

  module _ (waiting : Waiting) (method : String) where
    press-Adds :
        (module_id : Value) → Adds (OnlyPresses method) (press outside waiting module_id method)
    press-Adds module_id = record {
      added = λ s. elim (call-SendsOnce outside module_model method (press_args module_id) [] s) [
        | inl (e, raised, q) ↦
            Added-map IsQuestion (OnlyPresses method) (question_presses method) s.log _ q
        | inr (request, l, now, q, model, same, _, _) ↦ rw now (
            Added-trans (OnlyPresses method) s.log l (sent request ∷ l)
              (Added-map IsQuestion (OnlyPresses method) (question_presses method) s.log l q)
              (Added-cons (OnlyPresses method) (sent request) l (inr (model, same))))
      ];
    }

    attempts-Added :
        (left : ℕ) (module_id : Value) (s : Client)
        → Added (OnlyPresses method) s.log (attempts outside waiting left module_id method s).1.log
    unfolding attempts
    attempts-Added zero module_id s = Added-refl (OnlyPresses method) s.log
    attempts-Added (suc left) module_id s =
        let tried = press outside waiting module_id method s in
        let first = (press-Adds module_id).added s in
        elim (Result-cases tried.0) [
          | inl (v, returned) ↦ rw (returned, attempts) first
          | inr (fault, raised) ↦
              elim (Bool-cases (is_retried outside waiting left tried.1.log fault)) [
                | inl again ↦
                    rw (raised, attempts)
                      (rw (again, attempts)
                        (Added-trans (OnlyPresses method) s.log tried.1.log _ first
                          (attempts-Added left module_id (asleep outside waiting tried.1))))
                | inr over ↦ rw (raised, attempts) (rw (over, attempts) first)
              ]
        ]

    press_and_fetch-Adds :
        (module_name : String) (found : Value)
        → Adds (OnlyPresses method) (press_and_fetch outside waiting method module_name found)
    press_and_fetch-Adds module_name found =
        Adds->>= (OnlyPresses method) _ _ (Adds-lift (OnlyPresses method) (item "id" found))
          (λ module_id.
            Adds->> (OnlyPresses method) _ _ (record { added = attempts-Added 3 module_id })
              (Adds-presses method _ (find_module-IsRead module_name)))

  module _ (waiting : Waiting) (module_name : String) where
    -- Installing, uninstalling and upgrading a module send besides requests of the READ level only
    -- presses of their own button.
    modules-OnlyPresses :
        Adds (OnlyPresses "button_immediate_install") (install_module outside waiting module_name)
        × Adds
            (OnlyPresses "button_immediate_uninstall")
            (uninstall_module outside waiting module_name)
        × Adds (OnlyPresses "button_immediate_upgrade") (upgrade_module outside waiting module_name)
    unfolding install_module uninstall_module upgrade_module
    modules-OnlyPresses = (
      Adds->>= _ _ _ (Adds-presses _ _ (find_module-IsRead module_name)) (λ found.
          Adds->>= _ _ _ (Adds-lift _ (item "state" found)) (λ state.
            either-Adds _ (equals state "installed") _ _ (Adds-pure _ found)
              (press_and_fetch-Adds waiting _ module_name found))),
      Adds->>= _ _ _ (Adds-presses _ _ (find_module-IsRead module_name))
          (λ found. press_and_fetch-Adds waiting _ module_name found),
      Adds->>= _ _ _ (Adds-presses _ _ (find_module-IsRead module_name)) (λ found.
          Adds->>= _ _ _ (Adds-lift _ (item "state" found)) (λ state.
            either-Adds _ (equals state "installed") _ _
              (press_and_fetch-Adds waiting _ module_name found) (Adds-raise Value _ other))),
    )
