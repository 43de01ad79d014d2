-- ===== src/Config/Found.antt =====
-- When the environment makes a configuration.
use Prim.Native.String.{◌++◌}
use mathlib.Core.List.{◌++◌ as append}
use godoo_py.Base.{
  String, string_eq, ◌≡◌, refl, false, Option, none, some, List, [], ◌∷◌, ◌==◌, ok, err,
  if◌then◌else◌, Result, ◌≢◌, inl, inr, Bool-cases,
}
use godoo_py.Config.{
  Environment, Settings, or_else, if_missing, text_of, config_or_missing, config_from_env,
}

-- The first value that is there and not empty
abbrev pub first_set : List (Option String) → Option String
first_set [] = none
first_set (none ∷ values) = first_set values
first_set (some s ∷ values) = if s == "" then first_set values else some s

-- The four settings by their variables, the second of a pair for want of the first
abbrev pub url_of : Environment → String → Option String
url_of env prefix = first_set (env (prefix ++ "_URL") ∷ [])

abbrev pub database_of : Environment → String → Option String
database_of env prefix = first_set (env (prefix ++ "_DB") ∷ env (prefix ++ "_DATABASE") ∷ [])

abbrev pub username_of : Environment → String → Option String
username_of env prefix = first_set (env (prefix ++ "_USER") ∷ env (prefix ++ "_USERNAME") ∷ [])

abbrev pub password_of : Environment → String → Option String
password_of env prefix = first_set (env (prefix ++ "_PASSWORD") ∷ [])

-- The name that is listed for a setting that is not set
abbrev pub absent : Option String → String → List String
absent none label = label ∷ []
absent (some s) label = []

-- What a result says of the settings: all four are set, and are the ones of the environment; or one
-- at least is not set, and the names are those of the ones that are not, in their order.
abbrev pub IsConfig : Environment → String → Result (List String) Settings → Type 0
IsConfig env prefix (ok c) =
    (url_of env prefix ≡ some c.url)
    × (database_of env prefix ≡ some c.database)
    × (username_of env prefix ≡ some c.username)
    × (password_of env prefix ≡ some c.password)
IsConfig env prefix (err labels) =
    (labels ≢ [])
    × (labels
        ≡ append (absent (url_of env prefix) (prefix ++ "_URL")) (
            append
              (absent (database_of env prefix) (prefix ++ ("_DB (or " ++ (prefix ++ "_DATABASE)"))))
              (append
                (absent (username_of env prefix)
                  (prefix ++ ("_USER (or " ++ (prefix ++ "_USERNAME)"))))
                (absent (password_of env prefix) (prefix ++ "_PASSWORD")))))

-- The setting is listed or not as it should be, and if it is not listed, it has this value.
abbrev IsListed : Option String → Option String → String → Type 0
IsListed value expected label =
    (if_missing value label ≡ absent expected label)
    × (if_missing value label ≡ [] → expected ≡ some (text_of value))

single_set : (o : Option String) (label : String) → IsListed o (first_set (o ∷ [])) label
unfolding if_missing
single_set none label = (refl, λ e. cc)
single_set (some s) label = elim (Bool-cases (s == "")) [
  | inl empty ↦ rw empty (refl, λ e. cc)
  | inr full ↦ rw full (refl, λ e. refl)
]

set-IsListed : (s label : String) → (s == "") ≡ false → IsListed (some s) (some s) label
unfolding if_missing
set-IsListed s label full = rw full (refl, λ e. refl)

paired_set :
    (o other : Option String) (label : String)
    → IsListed (or_else o other) (first_set (o ∷ other ∷ [])) label
unfolding or_else
paired_set none other label = single_set other label
paired_set (some s) other label = elim (Bool-cases (s == "")) [
  | inl empty ↦ rw empty (single_set other label)
  | inr full ↦ rw full (set-IsListed s label full)
]

append-empty : (xs ys : List String) → append xs ys ≡ [] → (xs ≡ []) × (ys ≡ [])
append-empty [] ys e = (refl, e)
append-empty (x ∷ xs) ys e = absurd cc

module _ (env : Environment) (prefix : String) where
  -- A result over the names that should be listed
  checked_settings :
      (labels : List String) (c : Settings)
      → labels
        ≡ append (absent (url_of env prefix) (prefix ++ "_URL")) (
            append
              (absent (database_of env prefix) (prefix ++ ("_DB (or " ++ (prefix ++ "_DATABASE)"))))
              (append
                (absent
                  (username_of env prefix)
                  (prefix ++ ("_USER (or " ++ (prefix ++ "_USERNAME)"))))
                (absent (password_of env prefix) (prefix ++ "_PASSWORD"))))
      → (labels ≡ [] → IsConfig env prefix (ok c))
      → IsConfig env prefix (config_or_missing labels c)
  unfolding config_or_missing
  checked_settings [] c e h = h refl
  checked_settings (label ∷ labels) c e h = ((λ x. cc), e)

  -- The configuration is made exactly of the four settings of the environment, a pair's second variable
  -- standing in for a first one that is unset or empty; if one is missing, the exception lists exactly
  -- those that are, in their order.
  pub config_from_env-IsConfig : IsConfig env prefix (config_from_env env prefix)
  unfolding config_from_env
  config_from_env-IsConfig =
      let u = single_set (env (prefix ++ "_URL")) (prefix ++ "_URL") in
      let d =
        paired_set (env (prefix ++ "_DB")) (env (prefix ++ "_DATABASE"))
          (prefix ++ ("_DB (or " ++ (prefix ++ "_DATABASE)"))) in
      let n =
        paired_set (env (prefix ++ "_USER")) (env (prefix ++ "_USERNAME"))
          (prefix ++ ("_USER (or " ++ (prefix ++ "_USERNAME)"))) in
      let p = single_set (env (prefix ++ "_PASSWORD")) (prefix ++ "_PASSWORD") in
      checked_settings _ _ (cc (u.0, d.0, n.0, p.0)) (λ e.
        let (a, rest) = append-empty _ _ e in
        let (b, rest') = append-empty _ _ rest in
        let (c, last) = append-empty _ _ rest' in (u.1 a, d.1 b, n.1 c, p.1 last))
