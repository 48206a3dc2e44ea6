-- ===== src/Report/Sections.antt =====
-- tellus-comparison/src/bin/report.rs, the sections of `render_html`: one for each group and parameter.
use tellus.Prelude.{ℕ, ◌≡◌, false, List, [], ◌∷◌, ◌++◌}
use tellus.Prelude.Dict.{nat_key}
use tellus.Report.{Text, Measurement, Key, key, ordered, Rank, key_eq, Section}
use tellus.Report.Sorting.{printed}

-- The rank is a function of the key.
rank_of : Key → Rank
unfolding ordered
rank_of k = (k.0, ordered k.1)

-- The key is none of the given ones.
abbrev pub IsAbsent : Key → List Key → Type 0
IsAbsent k [] = Unit {0}
IsAbsent k (j ∷ js) = (key_eq k j ≡ false) × IsAbsent k js

abbrev pub AreDistinct : List Key → Type 0
AreDistinct [] = Unit {0}
AreDistinct (k ∷ ks) = IsAbsent k ks × AreDistinct ks

abbrev pub section_keys : List Section → List Key
section_keys [] = []
section_keys ((m, ms) ∷ cs) = key m ∷ section_keys cs

-- Of one key.
abbrev pub OfKey : Key → List Measurement → Type 0
OfKey k [] = Unit {0}
OfKey k (m ∷ ms) = (key m ≡ k) × OfKey k ms

abbrev pub AreUniform : List Section → Type 0
AreUniform [] = Unit {0}
AreUniform ((m, ms) ∷ cs) = OfKey (key m) ms × AreUniform cs

abbrev pub flatten : List Section → List Measurement
flatten [] = []
flatten ((m, ms) ∷ cs) = m ∷ ms ++ flatten cs

module _ (text_of : ℕ → Text) where
  key_of : Rank → Key
  key_of r = (r.0, printed text_of r.1)
