-- ===== src/Orchestrator/Dict.antt =====
-- sources/task-orchestrator.ts: `Map` with texts as keys, in the order of the first insertions.
use omarchy_hackertyper.Base.{
  List, [], ◌∷◌, map, Option, none, some, if◌then◌else◌, Text, text_eq, text_eq_iff, ◌≡◌, arith,
}

module _ {ℓ} {V : Type ℓ} where
  unfoldable pub get : Text → List (Text × V) → Option V
  get k [] = none
  get k ((j, v) ∷ m) = let rest = get k m in if text_eq j k then some v else rest

  -- `set` replaces the value of a key that is there.
  unfoldable pub set : Text → V → List (Text × V) → List (Text × V)
  set k v [] = (k, v) ∷ []
  set k v ((j, w) ∷ m) = let rest = set k v m in if text_eq j k then (j, v) ∷ m else (j, w) ∷ rest

  abbrev pub keys : List (Text × V) → List Text
  keys m = map (λ e. e.0) m

  pub get-set :
      (k j : Text) (v : V) (m : List (Text × V))
      → get j (set k v m) ≡ (if text_eq k j then some v else get j m)
  unfolding get set
  get-set k j v [] = ground arith
  get-set k j v ((i, w) ∷ m) =
      ground (arith, text_eq_iff k j, text_eq_iff i k, text_eq_iff i j, get-set k j v m)

  pub keys-set :
      (k : Text) (v w : V) (m : List (Text × V)) → get k m ≡ some w → keys (set k v m) ≡ keys m
  unfolding get set
  keys-set k v w [] h = cc
  keys-set k v w ((j, u) ∷ m) h = ground (arith, keys-set k v w m)
