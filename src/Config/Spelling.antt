-- ===== src/Config/Spelling.antt =====
-- The spelling of an option's name.
use shimakaze.Common.{ℕ, ◌+◌, ◌<◌, List, [], ◌∷◌}

-- Two spellings of a name: a dash or an underscore counts for nothing, and a letter may be in either case.
pub data SameName : List ℕ → List ℕ → Type 0 where
  ended : SameName [] []
  dash : {xs ys : List ℕ} → SameName xs ys → SameName (b'-' ∷ xs) ys
  underscore : {xs ys : List ℕ} → SameName xs ys → SameName (b'_' ∷ xs) ys
  equal : (c : ℕ) {xs ys : List ℕ} → SameName xs ys → SameName (c ∷ xs) (c ∷ ys)
  lowered :
      (n : ℕ) {xs ys : List ℕ} → n < 26 → SameName xs ys → SameName ((65 + n) ∷ xs) ((97 + n) ∷ ys)
  flipped : {xs ys : List ℕ} → SameName xs ys → SameName ys xs
