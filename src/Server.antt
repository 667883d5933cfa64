-- ===== src/Server.antt =====
-- `ClientTracker` of src/server/server.cpp: the table of the clients that were seen lately. Times are
-- counted in nanoseconds, as those of the steady clock.
pub mod Clients
mod Tests
use hsq_over_nand.Base.{
  ℕ, zero, suc, ◌+◌, ◌-◌, ◌<◌, Bool, true, false, Option, none, some, List, [], ◌∷◌, ◌++◌, map,
  length, set, ltb, ◌==◌, if◌then◌else◌,
}

-- `Ent`: a client, and when it was last seen.
pub record Ent : Type 0 where
  pub key : ℕ
  pub seen : ℕ

abbrev pub maxc : ℕ
maxc = 32

abbrev pub second : ℕ
second = 1000000000

abbrev pub is_active : ℕ → Ent → Bool
is_active now e = ltb (now - e.seen) second

-- `if (ent[i].key == key) ent[i].seen = now;`
abbrev pub refresh : ℕ → ℕ → Ent → Ent
refresh key now e = if e.key == key then record e { seen = now } else e

-- The locals of `touch` in its loop.
pub record Scan : Type 0 where
  pub ents : List Ent
  pub active : ℕ
  pub slot : Option ℕ
  pub found : Bool

-- The loop over the entries, from entry `i` on.
unfoldable pub scan : ℕ → ℕ → ℕ → List Ent → Scan → Scan
scan key now i [] s = s
scan key now i (e ∷ es) s =
    let e' = refresh key now e in
    scan key now (i + 1) es (record {
      ents = s.ents ++ e' ∷ [];
      active = if is_active now e' then s.active + 1 else s.active;
      slot = if is_active now e' then s.slot else (elim s.slot [ none ↦ some i | some j ↦ some j ]);
      found = if e.key == key then true else s.found;
    })

-- `ClientTracker::touch`: the number of active clients, and the new table.
unfoldable pub touch : ℕ → ℕ → List Ent → ℕ × List Ent
touch key now ents =
    let s = scan key now 0 ents (record { ents = []; active = 0; slot = none; found = false }) in
    if s.found then (s.active, s.ents) else (
      s.active + 1,
      (elim s.slot [
        | some i ↦ set s.ents i (record { key = key; seen = now })
        | none ↦
            if ltb (length s.ents) maxc
            then s.ents ++ record { key = key; seen = now } ∷ []
            else s.ents
      ]),
    )
