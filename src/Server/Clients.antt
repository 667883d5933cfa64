-- ===== src/Server/Clients.antt =====
-- What `ClientTracker::touch` of src/server/server.cpp counts.
use hsq_over_nand.Base.{
  ℕ, suc, ◌+◌, ◌≡◌, refl, ap, ◌∙◌, Bool, true, false, not, none, List, [], ◌∷◌, ◌==◌, ◌&&◌, ◌||◌,
  if◌then◌else◌, arith, inl, inr, Bool-cases,
}
use hsq_over_nand.Server.{Ent, is_active, refresh, Scan, scan, touch}

abbrev pub has_key : ℕ → List Ent → Bool
has_key key [] = false
has_key key (e ∷ es) = (e.key == key) || has_key key es

-- No client has two entries.
abbrev pub distinct : List Ent → Bool
distinct [] = true
distinct (e ∷ es) = not (has_key e.key es) && distinct es

-- The clients other than `key` that were seen within the last second.
abbrev pub others : ℕ → ℕ → List Ent → ℕ
others key now [] = 0
others key now (e ∷ es) =
    (if not (e.key == key) && is_active now e then 1 else 0) + others key now es

-- The entries that are active once `key` is refreshed.
abbrev active_of : ℕ → ℕ → List Ent → ℕ
active_of key now [] = 0
active_of key now (e ∷ es) =
    (if is_active now (refresh key now e) then 1 else 0) + active_of key now es

scan-active :
    (key now i : ℕ) (es : List Ent) (s : Scan)
    → (scan key now i es s).active ≡ s.active + active_of key now es
unfolding scan
scan-active key now i [] s = omega arith
scan-active key now i (e ∷ es) s =
    scan-active key now (i + 1) es _ ∙ elim (Bool-cases (is_active now (refresh key now e))) [
      | inl on ↦ rw on (omega arith)
      | inr off ↦ rw off (omega arith)
    ]

scan-found :
    (key now i : ℕ) (es : List Ent) (s : Scan)
    → (scan key now i es s).found ≡ (s.found || has_key key es)
unfolding scan
scan-found key now i [] s = ground arith
scan-found key now i (e ∷ es) s =
    scan-found key now (i + 1) es _ ∙ elim (Bool-cases (e.key == key)) [
      | inl same ↦ rw same (ground arith)
      | inr other ↦ rw other (ground arith)
    ]

active_of-absent :
    (key now : ℕ) (es : List Ent)
    → has_key key es ≡ false
    → active_of key now es ≡ others key now es
active_of-absent key now [] h = refl
active_of-absent key now (e ∷ es) h = ground (arith, active_of-absent key now es, h)

active_of-present :
    (key now : ℕ) (es : List Ent)
    → distinct es ≡ true
    → has_key key es ≡ true
    → active_of key now es ≡ suc (others key now es)
active_of-present key now [] d h = cc
active_of-present key now (e ∷ es) d h = elim (Bool-cases (e.key == key)) [
  | inl same ↦
      let at : e.key ≡ key = ground (arith, same) in
      let gone : has_key key es ≡ false = ground (arith, d, ap (λ k. has_key k es) at) in
      ground (arith, same, active_of-absent key now es gone)
  | inr other ↦ ground (arith, other, d, h, active_of-present key now es)
]

-- Where no client has two entries, `touch` returns the number of the other clients seen within the
-- last second and one for the client itself, whether or not it was in the table or found a place.
pub touch-others :
    (key now : ℕ) (ents : List Ent)
    → distinct ents ≡ true
    → (touch key now ents).0 ≡ suc (others key now ents)
unfolding touch
touch-others key now ents d =
    let start : Scan = record { ents = []; active = 0; slot = none; found = false } in
    let s = scan key now 0 ents start in
    let count = scan-active key now 0 ents start in
    let known = scan-found key now 0 ents start in
    elim (Bool-cases s.found) [
      | inl yes_found ↦ rw yes_found (
          omega (arith, count, active_of-present key now ents d (ground (arith, known, yes_found))))
      | inr absent ↦
          rw absent
            (omega (arith, count, active_of-absent key now ents (ground (arith, known, absent))))
    ]
