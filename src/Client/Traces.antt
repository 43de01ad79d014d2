-- ===== src/Client/Traces.antt =====
-- What a method of the client adds to the log: rules for every way in which methods are composed.
use mathlib.Core.List.{append_assoc}
use godoo_py.Base.{
  ◌≡◌, refl, sym, ◌∙◌, ap, List, [], ◌∷◌, ◌++◌, ok, err, All, All-append, Bool, true, false,
  if◌then◌else◌,
}
use godoo_py.Faults.{Fault, Checked}
use godoo_py.Safety.{read, infer_safety_level}
use godoo_py.Client.State.{Event, asked, sent, Client, Rpc, ◌>>=◌, ◌>>◌, pure, raise, lift, gets}

-- The second log is the first one with events of `P` put in front.
abbrev pub Added : (Event → Type 0) → List Event → List Event → Type 0
Added P before now = (new : List Event) × (now ≡ new ++ before) × All P new

-- Whatever state it starts in, the method adds events of `P` alone.
pub record Adds {A : Type 0} (P : Event → Type 0) (m : Rpc A) : Type 0 where
  pub added : (s : Client) → Added P s.log (m s).1.log

-- A request of the READ level: not a question, and no write.
abbrev pub IsRead : Event → Type 0
IsRead (asked op) = ⊥
IsRead (sent r) = infer_safety_level r.method ≡ read

-- A question to `confirm`
abbrev pub IsQuestion : Event → Type 0
IsQuestion (asked op) = Unit {0}
IsQuestion (sent r) = ⊥

-- A question, or a request of the READ level
abbrev pub NoWrite : Event → Type 0
NoWrite (asked op) = Unit {0}
NoWrite (sent r) = infer_safety_level r.method ≡ read

pub IsRead→NoWrite : (e : Event) → IsRead e → NoWrite e
IsRead→NoWrite (asked op) h = absurd h
IsRead→NoWrite (sent r) h = h

pub IsQuestion→NoWrite : (e : Event) → IsQuestion e → NoWrite e
IsQuestion→NoWrite (asked op) h = h
IsQuestion→NoWrite (sent r) h = absurd h

All-map :
    (P Q : Event → Type 0) → ((e : Event) → P e → Q e) → (xs : List Event) → All P xs → All Q xs
All-map P Q f [] h = tt
All-map P Q f (x ∷ xs) h = (f x h.0, All-map P Q f xs h.1)

pub Added-map :
    (P Q : Event → Type 0) (f : (e : Event) → P e → Q e) (before now : List Event)
    → Added P before now
    → Added Q before now
Added-map P Q f before now (new, e, h) = (new, e, All-map P Q f new h)

module _ (P : Event → Type 0) where
  pub Added-refl : (l : List Event) → Added P l l
  Added-refl l = ([], refl, tt)

  pub Added-trans : (a b c : List Event) → Added P a b → Added P b c → Added P a c
  Added-trans a b c (x, e, h) (y, f, k) =
      (y ++ x, f ∙ ap (λ l. y ++ l) e ∙ sym (append_assoc y x a), All-append P y x k h)

  pub Added-cons : (e : Event) (l : List Event) → P e → Added P l (e ∷ l)
  Added-cons e l h = (e ∷ [], refl, (h, tt))

module _ {A : Type 0} (P : Event → Type 0) where
  pub Adds-pure : (a : A) → Adds P (pure a)
  Adds-pure a = record { added = λ s. Added-refl P s.log }

  pub Adds-lift : (r : Checked A) → Adds P (lift r)
  Adds-lift r = record { added = λ s. Added-refl P s.log }

  pub Adds-gets : (f : Client → A) → Adds P (gets f)
  Adds-gets f = record { added = λ s. Added-refl P s.log }

pub Adds-raise : (A : Type 0) (P : Event → Type 0) (e : Fault) → Adds P (raise {A = A} e)
Adds-raise A P e = record { added = λ s. Added-refl P s.log }

pub either-Adds :
    {A : Type 0} (P : Event → Type 0) (b : Bool) (m n : Rpc A)
    → Adds P m
    → Adds P n
    → Adds P (if b then m else n)
either-Adds P true m n h k = h
either-Adds P false m n h k = k

module _ {A B : Type 0} (P : Event → Type 0) where
  Adds-continue :
      (before : List Event) (r : Checked A × Client) (f : A → Rpc B)
      → Added P before r.1.log
      → ((a : A) → Adds P (f a))
      → Added P before (◌>>=◌ (λ _. r) f r.1).1.log
  Adds-continue before (ok a, s) f h k = Added-trans P before s.log (f a s).1.log h ((k a).added s)
  Adds-continue before (err e, s) f h k = h

  pub Adds->>= :
      (m : Rpc A) (f : A → Rpc B) → Adds P m → ((a : A) → Adds P (f a)) → Adds P (m >>= f)
  Adds->>= m f h k = record { added = λ s. Adds-continue s.log (m s) f (h.added s) k }

  pub Adds->> : (m : Rpc A) (n : Rpc B) → Adds P m → Adds P n → Adds P (m >> n)
  Adds->> m n h k = Adds->>= m (λ _. n) h (λ _. k)

module _ {A B : Type 0} where
  -- The intermediate result of a method that returned in the end
  pub >>=-returns :
      (m : Rpc A) (f : A → Rpc B) (s : Client) (b : B)
      → ((m >>= f) s).0 ≡ ok b
      → (a : A) × ((m s).0 ≡ ok a) × ((m >>= f) s ≡ f a (m s).1)
  >>=-returns m f s b h = returned (m s) h
    where
      returned :
          (r : Checked A × Client)
          → (◌>>=◌ (λ _. r) f s).0 ≡ ok b
          → (a : A) × (r.0 ≡ ok a) × (◌>>=◌ (λ _. r) f s ≡ f a r.1)
      returned (ok a, s') e = (a, refl, refl)
      returned (err x, s') e = cc

  -- How a method that returned in the end went on
  pub >>=-result :
      (m : Rpc A) (f : A → Rpc B) (s : Client) (b : B)
      → ((m >>= f) s).0 ≡ ok b
      → (a : A) × (s' : Client) × ((m s).0 ≡ ok a) × ((f a s').0 ≡ ok b)
  >>=-result m f s b h =
      let (a, e, same) = >>=-returns m f s b h in (a, (m s).1, e, sym (ap (λ p. p.0) same) ∙ h)
