-- ===== src/Registry/Levenshtein/Tests.antt =====
use whs_dynamic.Base.{◌≡◌, refl, codes, some}
use whs_dynamic.Registry.Levenshtein.{levenshtein}

kitten : levenshtein (codes "kitten") (codes "sitting") ≡ some 3
unfolding levenshtein
kitten = refl
