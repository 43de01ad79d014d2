-- ===== src/Codegen/Importing.antt =====
-- The import lines of a generated module, against the names that its field lines use.
use mathlib.Core.Path.{subst}
use mathlib.Core.List.{Memᴰ}
use Prim.Native.String.{◌++◌}
use godoo_py.Base.{
  String, string_eq, ◌≡◌, ◌⊎◌, ◌∙◌, sym, refl, inl, inr, Bool, true, false, ◌&&◌, ◌||◌, List, [],
  ◌∷◌, ◌==◌, elem, any, All, if◌then◌else◌, is_empty, ok, arith, eq→path, Bool-cases, Result-cases,
}
use godoo_py.Introspection.{ModelSchema}
use godoo_py.Codegen.{Texts, Emission, model_to_classname}
use godoo_py.Codegen.Modules.{Progress, no_progress, emit_fields}
use godoo_py.Codegen.Lines.{
  file_sections, sections, stdlib_lines, typing_line, cross_lines, assembled, generate,
}
use godoo_py.Codegen.Bound.{always_bound, tokens, is_bound, uses_bound}
use godoo_py.Codegen.Names.{uses, uses-is_bound}
use godoo_py.Codegen.Emitted.{emit_fields-AllBound}

-- What a line of Python imports, of the lines that a generated module has
pub data Binds : String → String → Type 0 where
  date_alone : Binds "from datetime import date" "date"
  date_first : Binds "from datetime import date, datetime" "date"
  datetime_second : Binds "from datetime import date, datetime" "datetime"
  datetime_alone : Binds "from datetime import datetime" "datetime"
  optional_typing :
      (more : String) → Binds ("from typing import ClassVar, Optional" ++ more) "Optional"
  literal_last : Binds "from typing import ClassVar, Optional, Literal" "Literal"
  literal_any : Binds "from typing import ClassVar, Optional, Literal, Any" "Literal"
  any_last : Binds "from typing import ClassVar, Optional, Any" "Any"
  any_literal : Binds "from typing import ClassVar, Optional, Literal, Any" "Any"
  ref_class : Binds "from godoo.client.typed import Ref" "Ref"
  generated_class :
      (stem target : String) → Binds ("from ." ++ (stem ++ (" import " ++ target))) target

-- One of the lines imports the name.
abbrev pub Imports : List String → String → Type 0
Imports lines name = (line : String) × Memᴰ line lines × Binds line name

-- The name is a builtin, or imported.
abbrev pub IsUsable : List String → String → Type 0
IsUsable lines name = (elem name always_bound ≡ true) ⊎ Imports lines name

-- The lines of every section are lines of the file.
sections-here :
    (line : String) (group : List String) (groups : List (List String))
    → Memᴰ line group
    → Memᴰ line (sections (group ∷ groups))
sections-here line [] groups m = elim m [ ]
sections-here line (l ∷ ls) groups (Memᴰ.head e) = Memᴰ.head e
sections-here line (l ∷ ls) groups (Memᴰ.tail m) = Memᴰ.tail (sections-here line ls groups m)

sections-later :
    (line : String) (group : List String) (groups : List (List String))
    → Memᴰ line (sections groups)
    → Memᴰ line (sections (group ∷ groups))
sections-later line [] groups m = m
sections-later line (l ∷ ls) groups m = Memᴰ.tail (sections-later line ls groups m)

Mem-sections :
    (line : String) (group : List String) (groups : List (List String))
    → Memᴰ group groups
    → Memᴰ line group
    → Memᴰ line (sections groups)
Mem-sections line group [] at m = elim at [ ]
Mem-sections line group (g ∷ groups) (Memᴰ.head e) m =
    sections-here line g groups (subst (λ g. Memᴰ line g) e m)
Mem-sections line group (g ∷ groups) (Memᴰ.tail at) m =
    sections-later line g groups (Mem-sections line group groups at m)

stdlib-date :
    (imports : List String) → elem "date" imports ≡ true → Imports (stdlib_lines imports) "date"
stdlib-date imports h = elim (Bool-cases (elem "datetime" imports)) [
  | inl both ↦ rw (both, h) (_, Memᴰ.head refl, date_first)
  | inr alone ↦ rw (alone, h) (_, Memᴰ.head refl, date_alone)
]

stdlib-datetime :
    (imports : List String)
    → elem "datetime" imports ≡ true
    → Imports (stdlib_lines imports) "datetime"
stdlib-datetime imports h = elim (Bool-cases (elem "date" imports)) [
  | inl both ↦ rw (h, both) (_, Memᴰ.head refl, datetime_second)
  | inr alone ↦ rw (h, alone) (_, Memᴰ.head refl, datetime_alone)
]

typing-Literal :
    (imports : List String) → elem "Literal" imports ≡ true → Binds (typing_line imports) "Literal"
typing-Literal imports h = elim (Bool-cases (elem "Any" imports)) [
  | inl both ↦ rw (h, both) literal_any
  | inr alone ↦ rw (h, alone) literal_last
]

typing-Any : (imports : List String) → elem "Any" imports ≡ true → Binds (typing_line imports) "Any"
typing-Any imports h = elim (Bool-cases (elem "Literal" imports)) [
  | inl both ↦ rw (both, h) any_literal
  | inr alone ↦ rw (alone, h) any_last
]

any-nonempty :
    (q : String × String → Bool) (entries : List (String × String))
    → any q entries ≡ true
    → is_empty entries ≡ false
any-nonempty q [] h = absurd cc
any-nonempty q (entry ∷ entries) h = refl

cross_lines-Imports :
    (name : String) (entries : List (String × String))
    → any (λ entry. entry.1 == name) entries ≡ true
    → Imports (cross_lines entries) name
cross_lines-Imports name [] h = absurd cc
cross_lines-Imports name ((stem, target) ∷ entries) h = elim (Bool-cases (target == name)) [
  | inl same ↦ (
    _,
    Memᴰ.head refl,
    subst (λ n. Binds ("from ." ++ (stem ++ (" import " ++ target))) n) (eq→path target name same)
        (generated_class stem target),
  )
  | inr other ↦
      let (line, at, binds) = cross_lines-Imports name entries (ground (arith, h, other)) in
      (line, Memᴰ.tail at, binds)
]

module _ (texts : Texts) (name class_name : String) (p : Progress) where
  abbrev groups : List (List String)
  groups = file_sections texts name class_name p

  in_file :
      (n : String) (group : List String)
      → Memᴰ group groups
      → Imports group n
      → Imports (assembled texts name class_name p) n
  unfolding assembled
  in_file n group at (line, there, binds) = (line, Mem-sections line group groups at there, binds)

  typed :
      (n : String) → Binds (typing_line p.imports) n → Imports (assembled texts name class_name p) n
  typed n binds = in_file n _ (Memᴰ.tail (Memᴰ.tail (Memᴰ.head refl))) (_, Memᴰ.head refl, binds)

  named :
      (n token : String)
      → (n == token) ≡ true
      → elem n p.imports ≡ true
      → (elem token p.imports ≡ true → Imports (assembled texts name class_name p) token)
      → Imports (assembled texts name class_name p) n
  named n token same h k =
      let e = eq→path n token same in
      subst (λ n. Imports (assembled texts name class_name p) n) (sym e)
        (k (subst (λ n. elem n p.imports ≡ true) e h))

  ref_line : elem "Ref" p.imports ≡ true → Imports (assembled texts name class_name p) "Ref"
  ref_line has =
      in_file "Ref" (if elem "Ref" p.imports then "from godoo.client.typed import Ref" ∷ [] else [])
        (Memᴰ.tail (Memᴰ.tail (Memᴰ.tail (Memᴰ.head refl)))) (rw has (_, Memᴰ.head refl, ref_class))

  -- The line for a token
  token-Imports :
      (n : String)
      → elem n tokens ≡ true
      → elem n p.imports ≡ true
      → Imports (assembled texts name class_name p) n
  token-Imports n known h = elim (Bool-cases (n == "date")) [
    | inl same ↦ named n "date" same h (λ has.
        in_file "date" (stdlib_lines p.imports) (Memᴰ.tail (Memᴰ.head refl))
          (stdlib-date p.imports has))
    | inr no_date ↦ elim (Bool-cases (n == "datetime")) [
      | inl same ↦ named n "datetime" same h (λ has.
          in_file "datetime" (stdlib_lines p.imports) (Memᴰ.tail (Memᴰ.head refl))
            (stdlib-datetime p.imports has))
      | inr no_datetime ↦ elim (Bool-cases (n == "Literal")) [
        | inl same ↦
            named n "Literal" same h (λ has. typed "Literal" (typing-Literal p.imports has))
        | inr no_literal ↦ elim (Bool-cases (n == "Any")) [
          | inl same ↦ named n "Any" same h (λ has. typed "Any" (typing-Any p.imports has))
          | inr no_any ↦ named n "Ref" (ground arith) h ref_line
        ]
      ]
    ]
  ]

  class-Imports :
      (n : String)
      → any (λ entry. entry.1 == n) p.cross_imports ≡ true
      → Imports (assembled texts name class_name p) n
  class-Imports n h =
      let (line, at, binds) = cross_lines-Imports n p.cross_imports h in
      in_file n (if is_empty p.cross_imports then [] else "" ∷ cross_lines p.cross_imports)
        (Memᴰ.tail (Memᴰ.tail (Memᴰ.tail (Memᴰ.tail (Memᴰ.tail (Memᴰ.head refl))))))
        (rw (any-nonempty (λ entry. entry.1 == n) p.cross_imports h) (line, Memᴰ.tail at, binds))

  assembled-IsUsable :
      (n : String)
      → (n == "Optional" || is_bound p.imports p.cross_imports n) ≡ true
      → IsUsable (assembled texts name class_name p) n
  assembled-IsUsable n h = elim (Bool-cases (n == "Optional")) [
    | inl same ↦ inr (
        subst (λ n. Imports (assembled texts name class_name p) n) (sym (eq→path n "Optional" same))
          (typed "Optional" (optional_typing _)))
    | inr other ↦ elim (Bool-cases (elem n always_bound)) [
      | inl always ↦ inl always
      | inr needed ↦ elim (Bool-cases (elem n tokens && elem n p.imports)) [
        | inl token ↦ inr (token-Imports n (ground arith) (ground arith))
        | inr class ↦ inr (class-Imports n (ground (arith, h, other, needed, class)))
      ]
    ]
  ]

module _ (texts : Texts) (in_set : List String) where
  All-Mem :
      (P : String × Emission → Type 0) (emitted : List (String × Emission)) (f : String × Emission)
      → All P emitted
      → Memᴰ f emitted
      → P f
  All-Mem P [] f h m = elim m [ ]
  All-Mem P (x ∷ emitted) f h (Memᴰ.head e) = subst P (sym e) h.0
  All-Mem P (x ∷ emitted) f h (Memᴰ.tail m) = All-Mem P emitted f h.1 m

  -- Of a module that `generate` returns, every name that the annotation of an emitted field uses is a
  -- builtin, or one of the lines imports it.
  pub generate-IsUsable :
      (schema : ModelSchema) (lines : List String) (p : Progress) (f : String × Emission)
      (name : String)
      → generate texts in_set schema ≡ ok lines
      → emit_fields texts in_set schema.fields no_progress ≡ ok p
      → Memᴰ f p.emitted
      → uses name f.1.annotation ≡ true
      → IsUsable lines name
  unfolding generate
  generate-IsUsable schema lines p f name generated emitted at used =
      elim (Result-cases (model_to_classname texts schema.name)) [
        | inr (fault, failed) ↦ absurd (ground (arith, failed, generated))
        | inl (class_name, named) ↦
            let bound =
              All-Mem (λ f. uses_bound p.imports p.cross_imports f.1.annotation ≡ true) p.emitted f
                (emit_fields-AllBound texts in_set schema.fields p emitted) at in
            let opened : generate texts in_set schema
                ≡ ok (assembled texts schema.name class_name p) =
              rw (named, emitted, generate) refl in
            let both : ok (assembled texts schema.name class_name p) ≡ ok lines =
              sym opened ∙ generated in
            let same : assembled texts schema.name class_name p ≡ lines = cc in
            subst (λ lines. IsUsable lines name) same
              (assembled-IsUsable texts schema.name class_name p name
                (uses-is_bound p.imports p.cross_imports name f.1.annotation bound used))
      ]
