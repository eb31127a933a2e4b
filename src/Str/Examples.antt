-- ===== src/Str/Examples.antt =====
-- Runs of the string functions, and their theorems at concrete texts.
use strange_os.Prelude.{arith, ◌↔◌, ℕ, ◌≡◌, refl, true, false, none, some, List, [], ◌∷◌}
use strange_os.Prelude.Int.{pos}
use strange_os.Str.{strlen, std_strlen, strcmp, std_strcmp, kstreq, kstreq_loop, streq}
use strange_os.Str.Compare.{prefix_of_other, strcmp-zero}
use strange_os.Str.Copy.{c_string}

abbrev ab : List ℕ
ab = b'a' ∷ b'b' ∷ []

abbrev abc : List ℕ
abc = b'a' ∷ b'b' ∷ b'c' ∷ []

ab_runs :
    (strlen (c_string abc []) ≡ some 3)
    × (std_strlen (c_string abc []) ≡ some 3)
    × (strlen abc ≡ none)
    × (strcmp (c_string ab []) (c_string abc []) ≡ some (pos 0))
    × (std_strcmp (c_string ab []) (c_string ab []) ≡ some (pos 0))
    × (kstreq (c_string ab []) (c_string abc []) ≡ some false)
    × (streq (c_string abc []) (c_string abc []) ≡ some true)
unfolding strlen std_strlen strcmp std_strcmp kstreq kstreq_loop streq
ab_runs = (refl, refl, refl, refl, refl, refl, refl)

strcmp-zero_example :
    (strcmp (c_string ab []) (c_string abc (7 ∷ [])) ≡ some (pos 0))
    ↔ (prefix_of_other ab abc ≡ true)
strcmp-zero_example =
    strcmp-zero ab abc [] (7 ∷ []) (omega arith, (omega arith, tt))
      (omega arith, (omega arith, (omega arith, tt))) (omega arith, (omega arith, tt))
      (omega arith, (omega arith, (omega arith, tt)))
