-- ===== src/Transport/Sessions.antt =====
-- The session and the password of the transport over any sequence of logins and logouts.
use mathlib.Core.Path.{subst}
use godoo_py.Base.{
  String, ◌≡◌, refl, Option, none, some, List, [], ◌∷◌, ok, err, if◌then◌else◌, Bool-cases,
  Result-cases, inl, inr,
}
use godoo_py.Base.Dict.{Dict}
use godoo_py.Value.{Value, str, list, dict, of_items, of_entries, truthy, end}
use godoo_py.Faults.{auth, Checked}
use godoo_py.Transport.{
  Letters, Exchange, call_rpc, SessionInfo, JsonRpcTransport, new_transport, authenticate,
  execute_args, password_value, execute_kw, logout,
}

-- The last login that the server took and no logout followed: the user ID of the server's answer and
-- the password.
abbrev pub Login : Type 0
Login = Value × String

-- The login that holds after an attempt: the server takes it by answering with a truthy user ID.
abbrev pub after_attempt : Checked Value → String → Option Login → Option Login
after_attempt (err e) password last = last
after_attempt (ok uid) password last = if truthy uid then some (uid, password) else last

-- The transports that logins and logouts lead to, each with the login that holds. Each login has its
-- own answer of the server and its own new session ID.
pub data Reached (letters : Letters) (db : String) : JsonRpcTransport → Option Login → Type 0 where
  created : Reached letters db (new_transport db) none
  attempted :
      {t : JsonRpcTransport} {last : Option Login} (post : List Value → Exchange)
      (fresh username password : String)
      → Reached letters db t last
      → Reached letters db (authenticate letters post fresh username password t).1 (
          after_attempt
            (call_rpc letters (post (str db ∷ str username ∷ str password ∷ dict end ∷ [])))
            password
            last)
  ended :
      {t : JsonRpcTransport} {last : Option Login}
      → Reached letters db t last
      → Reached letters db (logout t) none

-- What the state must hold for a login
abbrev Holds : String → JsonRpcTransport → Option Login → Type 0
Holds db t none = (t.db ≡ db) × (t.session ≡ none) × (t.password ≡ none)
Holds db t (some (uid, password)) =
    (t.db ≡ db)
    × (s : SessionInfo) × (t.session ≡ some s)
    × (s.uid ≡ uid)
    × (t.password ≡ some password)

-- The server's answer to a login
abbrev login_reply : Letters → (List Value → Exchange) → String → String → String → Checked Value
login_reply letters post db username password =
    call_rpc letters (post (str db ∷ str username ∷ str password ∷ dict end ∷ []))

attempt-Holds :
    {db : String} (letters : Letters) (post : List Value → Exchange)
    (fresh username password : String) (t : JsonRpcTransport) (last : Option Login)
    → t.db ≡ db
    → Holds db t last
    → Holds db
        (authenticate letters post fresh username password t).1
        (after_attempt (login_reply letters post t.db username password) password last)
unfolding authenticate
attempt-Holds letters post fresh username password t last same h =
    elim (Result-cases (login_reply letters post t.db username password)) [
      | inr (e, failed) ↦ rw (failed, authenticate) h
      | inl (uid, answered) ↦ elim (Bool-cases (truthy uid)) [
        | inl valid ↦ rw (answered, authenticate) (rw valid (same, _, refl, refl, refl))
        | inr refused ↦ rw (answered, authenticate) (rw refused h)
      ]
    ]

Holds-db : {db : String} (t : JsonRpcTransport) (last : Option Login) → Holds db t last → t.db ≡ db
Holds-db t none h = h.0
Holds-db t (some (uid, password)) h = h.0

module _ {letters : Letters} {db : String} where
  Reached-Holds :
      {t : JsonRpcTransport} {last : Option Login} → Reached letters db t last → Holds db t last
  unfolding new_transport logout
  Reached-Holds created = (refl, refl, refl)
  Reached-Holds (attempted {t} {last} post fresh username password before) =
      let h = Reached-Holds before in
      let same = Holds-db t last h in
      subst
        (λ d.
          Holds db (authenticate letters post fresh username password t).1
            (after_attempt (login_reply letters post d username password) password last))
        same (attempt-Holds letters post fresh username password t last same h)
  Reached-Holds (ended {t} {last} before) = (Holds-db t last (Reached-Holds before), refl, refl)

  -- After any sequence of logins and logouts, a call posts with the user ID and the password of the
  -- last login that the server took, to the transport's database, if no logout followed; and else it
  -- posts nothing and raises the exception of authentication.
  pub Reached-execute_kw :
      {t : JsonRpcTransport} {last : Option Login} (post : List Value → Exchange)
      (model method : String) (args : List Value) (kwargs : Dict String Value)
      → Reached letters db t last
      → execute_kw letters post model method args kwargs t ≡ elim last [
        | none ↦ (none, err auth)
        | some (uid, password) ↦
            let sent =
              str db
              ∷ uid
              ∷ str password
              ∷ str model
              ∷ str method
              ∷ list (of_items args)
              ∷ dict (of_entries kwargs)
              ∷ [] in
            (some sent, call_rpc letters (post sent))
      ]
  unfolding execute_kw
  Reached-execute_kw {t} {last = none} post model method args kwargs reached =
      let (same, no_session, no_password) = Reached-Holds reached in
      rw (no_session, execute_kw) refl
  Reached-execute_kw {t} {last = some (uid, password)} post model method args kwargs reached =
      let (same, s, session, user, known) = Reached-Holds reached in
      simp (execute_kw, session, same, user, known, execute_args, password_value)
