-- ===== src/Http/Pieces.antt =====
-- The pieces in which the clients of the directory http receive a message.
use tinyco.Prelude.{◌≡◌, List, [], ◌∷◌, ◌++◌, Bytes}
use tinyco.Http.Check.{check_http, hpc_ok, hpc_not_complete_http}
use tinyco.Http.Parser.{ParserLib}

-- The texts that are received, one behind the other.
abbrev pub joined : Bytes → List Bytes → Bytes
joined seen [] = seen
joined seen (bs ∷ pieces) = joined (seen ++ bs) pieces

module _ (lib : ParserLib) where
  -- With the last piece, and not before it, what was received counts as a whole message.
  abbrev pub WholeAtLast : Bytes → List Bytes → Type 0
  WholeAtLast seen [] = ⊥
  WholeAtLast seen (bs ∷ []) = (check_http lib (seen ++ bs)).0 ≡ hpc_ok
  WholeAtLast seen (bs ∷ c ∷ pieces) =
      ((check_http lib (seen ++ bs)).0 ≡ hpc_not_complete_http)
      × WholeAtLast (seen ++ bs) (c ∷ pieces)
