-- ===== src/Client/Pages/Table.antt =====
-- The server's side of keyset pagination: a table in the order of its IDs.
use godoo_py.Base.{
  string_eq, ℕ, zero, suc, ◌≤◌, ◌<◌, ◌≡◌, refl, ap, some, List, [], ◌∷◌, ltb, length, take, drop,
  if◌then◌else◌, ok, pos, arith,
}
use godoo_py.Base.Dict.{lookup}
use godoo_py.Value.{int}
use godoo_py.Client.Pages.{Row, last_id}

abbrev pub Table : Type 0
Table = List (ℕ × Row)

abbrev pub rows : Table → List Row
rows [] = []
rows ((n, row) ∷ t) = row ∷ rows t

-- Every row carries its ID, and the IDs ascend from above `c`.
abbrev pub IsTable : ℕ → Table → Type 0
IsTable c [] = Unit
IsTable c ((n, row) ∷ t) = (c < n) × (lookup "id" row ≡ some (int (pos n))) × IsTable n t

-- `[("id", ">", c)]`
abbrev pub above : ℕ → Table → Table
above c [] = []
above c ((n, row) ∷ t) = if ltb c n then (n, row) ∷ above c t else above c t

abbrev pub last_key : ℕ → Table → ℕ
last_key c [] = c
last_key c ((n, row) ∷ t) = last_key n t

above_all : (c d : ℕ) (t : Table) → IsTable c t → d ≤ c → above d t ≡ t
above_all c d [] h le = refl
above_all c d ((n, row) ∷ t) h le = ground (arith, above_all n d t h.2 (omega arith))

pub above_zero : (t : Table) → IsTable 0 t → above 0 t ≡ t
above_zero t h = above_all 0 0 t h (omega arith)

pub above-above : (c d : ℕ) (t : Table) → c ≤ d → above d (above c t) ≡ above d t
above-above c d [] le = refl
above-above c d ((n, row) ∷ t) le = ground (arith, above-above c d t le)

pub last_key-ge : (c : ℕ) (t : Table) → IsTable c t → c ≤ last_key c t
last_key-ge c [] h = omega arith
last_key-ge c ((n, row) ∷ t) h = omega (arith, last_key-ge n t h.2)

pub take-IsTable : (c k : ℕ) (t : Table) → IsTable c t → IsTable c (take k t)
take-IsTable c zero t h = tt
take-IsTable c (suc k) [] h = tt
take-IsTable c (suc k) ((n, row) ∷ t) h = (h.0, h.1, take-IsTable n k t h.2)

pub drop-IsTable : (c k : ℕ) (t : Table) → IsTable c t → IsTable (last_key c (take k t)) (drop k t)
drop-IsTable c zero t h = h
drop-IsTable c (suc k) [] h = tt
drop-IsTable c (suc k) ((n, row) ∷ t) h = drop-IsTable n k t h.2

-- Above the last ID of the first `k` rows are the rows behind them.
pub above_last : (c k : ℕ) (t : Table) → IsTable c t → above (last_key c (take k t)) t ≡ drop k t
above_last c zero t h = above_all c c t h (omega arith)
above_last c (suc k) [] h = refl
above_last c (suc k) ((n, row) ∷ t) h =
    ground (arith, last_key-ge n (take k t) (take-IsTable n k t h.2), above_last n k t h.2)

-- The cursor that the code reads off a page
pub last_id-rows :
    (c : ℕ) (t : Table)
    → IsTable c t
    → 0 < length t
    → last_id (rows t) ≡ ok (int (pos (last_key c t)))
unfolding last_id
last_id-rows c [] h p = absurd (omega arith)
last_id-rows c ((n, row) ∷ []) h p = ground arith
last_id-rows c ((n, row) ∷ (m, row') ∷ t) h p = last_id-rows n ((m, row') ∷ t) h.2 (omega arith)

pub length-rows : (t : Table) → length (rows t) ≡ length t
length-rows [] = refl
length-rows ((n, row) ∷ t) = ap suc (length-rows t)
