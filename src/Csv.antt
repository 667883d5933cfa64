-- ===== src/Csv.antt =====
-- `nandInterface_splitCsv` of include/nandInterface.hpp: the paths of a list of devices. A text is the
-- list of its bytes before the closing 0.
mod Tests
use mathlib.Core.List.{append_assoc, append-nil}
use hsq_over_nand.Base.{
  ℕ, ◌≡◌, refl, sym, ap, ◌∙◌, Bool, true, false, not, List, [], ◌∷◌, ◌++◌, ◌==◌, ◌&&◌,
  if◌then◌else◌, arith, and-elim,
}

abbrev pub comma : ℕ
comma = 44

-- `if (!cur.empty()) out.push_back(cur);`
unfoldable pub flush : List ℕ → List (List ℕ) → List (List ℕ)
flush [] out = out
flush (c ∷ cur) out = out ++ (c ∷ cur) ∷ []

-- The loop, with the part read so far and the parts before it.
unfoldable pub split_from : List ℕ → List ℕ → List (List ℕ) → List (List ℕ)
split_from [] cur out = flush cur out
split_from (c ∷ cs) cur out =
    let next = split_from cs [] (flush cur out) in
    let more = split_from cs (cur ++ c ∷ []) out in if c == comma then next else more

unfoldable pub split_csv : List ℕ → List (List ℕ)
split_csv s = split_from s [] []

-- The parts with commas between them.
unfoldable pub join_csv : List (List ℕ) → List ℕ
join_csv [] = []
join_csv (p ∷ []) = p
join_csv (p ∷ q ∷ ps) = let rest = join_csv (q ∷ ps) in p ++ comma ∷ rest

abbrev pub no_comma : List ℕ → Bool
no_comma [] = true
no_comma (c ∷ cs) = not (c == comma) && no_comma cs

-- A part that is not empty and has no comma.
abbrev pub is_part : List ℕ → Bool
is_part [] = false
is_part (c ∷ cs) = no_comma (c ∷ cs)

abbrev pub all_parts : List (List ℕ) → Bool
all_parts [] = true
all_parts (p ∷ ps) = is_part p && all_parts ps

split_from-part :
    (p rest cur : List ℕ) (out : List (List ℕ))
    → no_comma p ≡ true
    → split_from (p ++ rest) cur out ≡ split_from rest (cur ++ p) out
unfolding split_from
split_from-part [] rest cur out h = rw append-nil refl
split_from-part (c ∷ cs) rest cur out h =
    let other : (c == comma) ≡ false = ground (arith, h) in
    let e = split_from-part cs rest (cur ++ c ∷ []) out (ground (arith, h)) in
    rw other (e ∙ ap (λ l. split_from rest l out) (append_assoc cur (c ∷ []) cs))

flush-part : (p : List ℕ) (out : List (List ℕ)) → is_part p ≡ true → flush p out ≡ out ++ p ∷ []
unfolding flush
flush-part [] out h = cc h
flush-part (c ∷ cs) out h = refl

is_part-no_comma : (p : List ℕ) → is_part p ≡ true → no_comma p ≡ true
is_part-no_comma [] h = refl
is_part-no_comma (c ∷ cs) h = h

split_from-join_csv :
    (ps out : List (List ℕ)) → all_parts ps ≡ true → split_from (join_csv ps) [] out ≡ out ++ ps
unfolding split_from join_csv flush
split_from-join_csv [] out h = sym (append-nil out)
split_from-join_csv (p ∷ []) out h =
    let ok = (and-elim _ _ h).0 in
    rw append-nil at (split_from-part p [] [] out (is_part-no_comma p ok)) ∙ flush-part p out ok
split_from-join_csv (p ∷ q ∷ ps) out h =
    let ok = (and-elim _ _ h).0 in
    split_from-part p (comma ∷ join_csv (q ∷ ps)) [] out (is_part-no_comma p ok)
    ∙ split_from-join_csv (q ∷ ps) (flush p out) (and-elim _ _ h).1
    ∙ ap (λ o. o ++ (q ∷ ps)) (flush-part p out ok)
    ∙ append_assoc out (p ∷ []) (q ∷ ps)

-- Paths that are not empty and have no comma are read back from their list with commas between.
pub split_csv-join_csv : (ps : List (List ℕ)) → all_parts ps ≡ true → split_csv (join_csv ps) ≡ ps
unfolding split_csv
split_csv-join_csv ps h = split_from-join_csv ps [] h
