-- ===== src/Server/Tests.antt =====
-- Three clients, one of them known and one long gone.
use hsq_over_nand.Base.{◌≡◌, refl, suc, List, [], ◌∷◌}
use hsq_over_nand.Server.{Ent, touch}
use hsq_over_nand.Server.Clients.{others, touch-others}

abbrev clients : List Ent
clients =
    record { key = 7; seen = 5000000000 }
    ∷ record { key = 8; seen = 1 }
    ∷ record { key = 9; seen = 5100000000 }
    ∷ []

touch-others_example : (touch 7 5200000000 clients).0 ≡ suc (others 7 5200000000 clients)
touch-others_example = touch-others 7 5200000000 clients refl
