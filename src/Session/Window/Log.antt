-- ===== src/Session/Window/Log.antt =====
-- What a replay window promises, told with the list of all counters accepted so far.
use go_matter.Base.{
  ℕ, ◌+◌, ◌≤◌, ◌≡◌, Bool, true, false, ◌&&◌, ◌||◌, not, List, [], ◌∷◌, ◌==◌, leb, arith, ◌<◌,
}
use Prim.Native.Nat.{max}

unfoldable pub contains : List ℕ → ℕ → Bool
contains [] c = false
contains (x ∷ xs) c = x == c || contains xs c

-- The highest counter of a log.
unfoldable pub highest : List ℕ → ℕ
highest [] = 0
highest (x ∷ xs) = max x (highest xs)

-- A counter is fresh if it was not accepted and lies at most 32 below the highest one.
unfoldable pub is_fresh : List ℕ → ℕ → Bool
unfolding contains highest
is_fresh log c = leb (highest log) (c + 32) && not (contains log c)

pub contains-le-highest : (log : List ℕ) (c : ℕ) → contains log c ≡ true → c ≤ highest log
unfolding contains highest
contains-le-highest [] c h = ground arith
contains-le-highest (x ∷ xs) c h = ground (arith, contains-le-highest xs c)

-- A nonempty log of nonzero counters contains its highest one.
pub contains-highest : (log : List ℕ) → 0 < highest log → contains log (highest log) ≡ true
unfolding contains highest
contains-highest [] h = absurd (omega arith)
contains-highest (x ∷ xs) h = ground (arith, contains-highest xs)
