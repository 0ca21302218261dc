-- ===== src/Feed/Event/Tests.antt =====
-- Names of exchanges in small and capital letters.
use fastbook.Prelude.{◌≡◌, refl, [], ◌∷◌, none, some}
use fastbook.Feed.Event.{str_to_exchange, nyse}

mixed_case : str_to_exchange (78 ∷ 121 ∷ 83 ∷ 101 ∷ []) ≡ some nyse
unfolding str_to_exchange
mixed_case = refl

too_short : str_to_exchange (110 ∷ 121 ∷ 115 ∷ []) ≡ none
unfolding str_to_exchange
too_short = refl
