-- ===== src/Tests/Replacers.antt =====
-- Replacers with room for two frames.
use myrmdb.Prelude.{◌≡◌, List, [], ◌∷◌}
use myrmdb.Storage.Replacer.{lru_replacer}
use myrmdb.Storage.Replacer.Refines.{
  Call, victims, pins, unpins, run, run_spec, Implements, lru_replacer-Implements, run-Implements,
}

abbrev history : List Call
history = unpins 4 ∷ unpins 7 ∷ unpins 9 ∷ pins 4 ∷ unpins 4 ∷ victims ∷ []

run-Implements_example :
    ((run history (lru_replacer 2)).0 ≡ (run_spec 2 history []).0)
    × Implements 2 (run_spec 2 history []).1 (run history (lru_replacer 2)).1
run-Implements_example = run-Implements 2 history [] (lru_replacer 2) (lru_replacer-Implements 2)
