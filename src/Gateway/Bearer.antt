-- ===== src/Gateway/Bearer.antt =====
-- `JwtAuthGuard.extractBearerToken` (apps/api-gateway/src/auth/jwt-auth.guard.ts).
use Prim.Native.String.append
use cinema_microservices.Prelude.{Char, code}
use Prim.Native.String.{[], ◌∷◌, ◌++◌}
use mathlib.Core.List.{List, [], ◌∷◌}
use cinema_microservices.Prelude.{
  if◌then◌else◌, refl, ◌&&◌, ◌===◌, ◌==◌, ◌≡◌, Bool, Option, String, false, not, some, Bool-cases,
  none, inl, eq_iff, inr,
}

abbrev pub is_space : Char → Bool
is_space c = code c == 32

abbrev pub prepend : Char → List String → List String
prepend c [] = (c ∷ []) ∷ []
prepend c (w ∷ ws) = (c ∷ w) ∷ ws

-- `split(" ")`
unfoldable pub split_spaces : String → List String
split_spaces [] = "" ∷ []
split_spaces (c ∷ s) = let rest = split_spaces s in if is_space c then "" ∷ rest else prepend c rest

abbrev pub bearer : List String → Option String
bearer (type ∷ token ∷ rest) = if type === "Bearer" && not (token === "") then some token else none
bearer parts = none

unfoldable pub extract_bearer_token : Option String → Option String
extract_bearer_token none = none
extract_bearer_token (some header) = bearer (split_spaces header)

-- No character is a space.
abbrev pub NoSpace : String → Type 0
NoSpace [] = Unit
NoSpace (c ∷ s) = (is_space c ≡ false) × NoSpace s

split_spaces-NoSpace : (s : String) → NoSpace s → split_spaces s ≡ s ∷ []
unfolding split_spaces
split_spaces-NoSpace [] h = refl
split_spaces-NoSpace (c ∷ s) (h, hs) = rw (h, split_spaces-NoSpace s hs) refl

split_spaces-Bearer :
    (token : String) → split_spaces ("Bearer " ++ token) ≡ "Bearer" ∷ split_spaces token
unfolding split_spaces
split_spaces-Bearer token = rw (
  append.cons, append.cons, append.cons, append.cons, append.cons, append.cons, append.cons,
  append.nil,
)

-- The token of a header is what a client put behind "Bearer ", if it is not empty and has no space.
pub extract_bearer_token-Bearer :
    (token : String)
    → NoSpace token
    → ¬ (token ≡ "")
    → extract_bearer_token (some ("Bearer " ++ token)) ≡ some token
unfolding extract_bearer_token
extract_bearer_token-Bearer token h given =
    rw (split_spaces-Bearer token, split_spaces-NoSpace token h)
      (elim (Bool-cases (token === "")) [
        | inl empty ↦ absurd (given ((eq_iff token "").0 empty))
        | inr other ↦ rw other refl
      ])
