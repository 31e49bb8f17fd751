-- ===== src/Graph/Layers.antt =====
-- `topological_layers` and `find_cycle` of crates/core/src/graph.rs, over the dependencies by key.
-- `none` is a panic of the code (an `expect`, or an index into the map that is not there) or the
-- end of the fuel; the theorems show that neither happens.
use openporch.Prelude.{
  ℕ, suc, zero, true, false, Option, none, some, List, [], ◌∷◌, ◌++◌, map, keep, is_nil, length,
  drop,
}
use openporch.Prelude.Order.{Ord}
use openporch.Prelude.Result.{Result, ok, err}
use openporch.BTreeMap.{BTreeMap, BTreeSet, keys, get, insert, remove, set_remove}

module _ {ℓ} {K : Type ℓ} ⦃o : Ord K⦄ where
  -- `for d in &ready { remaining.remove(d); }`
  unfoldable pub remove_all : List K → BTreeMap K (BTreeSet K) → BTreeMap K (BTreeSet K)
  remove_all [] remaining = remaining
  remove_all (d ∷ ready) remaining = remove_all ready (remove d remaining)

  -- `for d in &ready { deps.remove(d); }`
  unfoldable pub satisfy : List K → BTreeSet K → BTreeSet K
  satisfy [] deps = deps
  satisfy (d ∷ ready) deps = satisfy ready (set_remove d deps)

  -- `remaining.values_mut()`
  unfoldable pub satisfy_all : List K → BTreeMap K (BTreeSet K) → BTreeMap K (BTreeSet K)
  satisfy_all ready remaining = map (λ e. (e.0, satisfy ready e.1)) remaining

  unfoldable pub ready_nodes : BTreeMap K (BTreeSet K) → List K
  ready_nodes remaining = keys (keep (λ e. is_nil e.1) remaining)

  abbrev pub or_panic : Option (BTreeSet K) → Option K
  or_panic none = none
  or_panic (some []) = none
  or_panic (some (d ∷ deps)) = some d

  -- The first dependency of `current`: `remaining[current].iter().next().expect(..)`.
  unfoldable pub first_dependency : BTreeMap K (BTreeSet K) → K → Option K
  first_dependency remaining current = or_panic (get current remaining)

  -- The `loop`, with its variables `path`, `seen` and `current`.
  unfoldable pub walk : ℕ → BTreeMap K (BTreeSet K) → List K → BTreeMap K ℕ → K → Option (List K)
  walk zero remaining path seen current = none
  walk (suc fuel) remaining path seen current = elim (first_dependency remaining current) [
    | none ↦ none
    | some next ↦ elim (get next seen) [
      | some i ↦ some (drop i path ++ next ∷ [])
      | none ↦ walk fuel remaining (path ++ next ∷ []) (insert next (length path) seen) next
    ]
  ]

  unfoldable pub find_cycle : BTreeMap K (BTreeSet K) → Option (List K)
  unfolding walk first_dependency
  find_cycle [] = none
  find_cycle ((start, deps) ∷ rest) =
      walk (suc (length rest)) ((start, deps) ∷ rest) (start ∷ []) (insert start 0 []) start

  abbrev pub cycle_error {κ} : {A : Type κ} → Option (List K) → Option (Result (List K) A)
  cycle_error none = none
  cycle_error (some c) = some (err c)

  unfoldable pub layer_loop :
      ℕ → BTreeMap K (BTreeSet K) → List (List K) → Option (Result (List K) (List (List K)))
  layer_loop fuel [] layers = some (ok layers)
  layer_loop zero (e ∷ rest) layers = none
  layer_loop (suc fuel) (e ∷ rest) layers =
      let remaining = e ∷ rest in
      let ready = ready_nodes remaining in
      let later =
        layer_loop fuel (satisfy_all ready (remove_all ready remaining)) (layers ++ ready ∷ []) in
      elim (is_nil ready) [ true ↦ cycle_error (find_cycle remaining) | false ↦ later ]

  -- The error is the cycle that was found.
  unfoldable pub layers_of : BTreeMap K (BTreeSet K) → Option (Result (List K) (List (List K)))
  unfolding layer_loop ready_nodes satisfy_all satisfy remove_all find_cycle
  layers_of remaining = layer_loop (length remaining) remaining []
