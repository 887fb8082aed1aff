-- ===== src/Utils/Tests.antt =====
-- Runs of `root` of packages/utils on three values.
use zkopru.Base.{List, [], ◌∷◌}
use zkopru.Base.Terms.{Term, leaf}

abbrev three_values : List Term
three_values = leaf 1 ∷ leaf 2 ∷ leaf 3 ∷ []
