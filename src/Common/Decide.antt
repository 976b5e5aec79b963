-- ===== src/Common/Decide.antt =====
-- A property of every element, by a test that is run on them.
use Prim.Native.Nat.{ℕ}
use mathlib.Core.Path.{◌≡◌}
use mathlib.Core.Logic.{◌≢◌}
use mathlib.Core.Bool.{Bool, true, not, ◌&&◌}
use mathlib.Core.List.{[], ◌∷◌}
use native.Mathlib.Omega.{arith}
use rtp_server.Common.Tests.{◌==◌}
use rtp_server.Common.Lists.{All}
use rtp_server.Common.Text.{Bytes, NoneOf}

abbrev pub all : (ℕ → Bool) → Bytes → Bool
all test [] = true
all test (x ∷ xs) = test x && all test xs

pub all-All {ℓ} :
    (P : ℕ → Type ℓ) (test : ℕ → Bool) (xs : Bytes)
    → ((x : ℕ) → test x ≡ true → P x)
    → all test xs ≡ true
    → All P xs
all-All P test [] h e = tt
all-All P test (x ∷ xs) h e = (h x (ground arith), all-All P test xs h (ground arith))

pub all-NoneOf : (c : ℕ) (s : Bytes) → all (λ x. not (x == c)) s ≡ true → NoneOf c s
all-NoneOf c s e = all-All (λ x. x ≢ c) (λ x. not (x == c)) s (λ x h. ground arith) e
