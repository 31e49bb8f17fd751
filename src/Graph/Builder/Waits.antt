-- ===== src/Graph/Builder/Waits.antt =====
-- `Builder::match_dependents` ends within its fuel, and keeps the builder valid.
use openporch.Prelude.{
  ℕ, zero, suc, ◌+◌, ◌*◌, ◌≤◌, ◌<◌, Bool, true, false, ◌||◌, not, List, [], ◌∷◌, Option, none, some,
  map, keep, length, All, All-of_Memᴰ, All-Memᴰ, if◌then◌else◌, ◌≡◌, refl, sym, ap, ◌∙◌, subst, inl,
  inr, arith, Bool-cases, Option-cases, Memᴰ, Memᴰ-keep,
}
use openporch.Prelude.Distinct.{length-le_of_Distinct}
use openporch.BTreeMap.{BTreeMap, get, insert, set_insert, set_contains, keys, values, contains_key}
use openporch.BTreeMap.Length.{length-insert}
use openporch.BTreeMap.Laws.{is_some, contains_key-get}
use openporch.BTreeMap.Members.{get_of_mem, mem_of_get, mem_keys}
use openporch.BTreeMap.Sets.{Distinct-of_IsSortedSet}
use openporch.Ids.{Descriptor}
use openporch.Ids.Types.{descriptor_ord}
use openporch.Graph.Builder.Types.{GraphInput, Node, CoProvision, Builder, bool_key}
use openporch.Graph.Builder.Request.{edge}
use openporch.Graph.Builder.Dependents.{
  consumers, add_consumers, one_round, dependents_loop, match_dependents,
}
use openporch.Graph.Builder.Valid.{Ids, Has, Grows, IsValid, All-map}
use openporch.Graph.Builder.Requested.{put-Keeps, edge-IsNode}
use openporch.Graph.Builder.Settled.{MatchesDependents, settled-MatchesDependents}
use openporch.Graph.Builder.Counting.{total, total-insert, length-set_insert}

-- What a part of a round does: it does not panic, and whenever it says that an edge is new there
-- are more edges.
abbrev Adds : GraphInput → Ids → Builder → Bool → Option (Builder × Bool) → Type 0
Adds input ids b added none = ⊥
Adds input ids b added (some (b', added')) =
    IsValid input ids b'
    × Grows b.nodes b'.nodes
    × (length b'.nodes ≡ length b.nodes)
    × (b'.co ≡ b.co)
    × (bool_key added' + total b.nodes ≤ bool_key added + total b'.nodes)

Adds-next :
    (input : GraphInput) (ids : Ids) (b b' : Builder) (added added' : Bool)
    (r : Option (Builder × Bool))
    → Adds input ids b added (some (b', added'))
    → Adds input ids b' added' r
    → Adds input ids b added r
Adds-next input ids b b' added added' none h k = k
Adds-next input ids b b' added added' (some (c, more)) (v, g, l, q, n) (v', g', l', q', n') =
    (v', λ d x. g' d (g d x), l' ∙ l, q' ∙ q, omega arith)

Adds-some :
    (input : GraphInput) (ids : Ids) (b : Builder) (added : Bool) (r : Option (Builder × Bool))
    → Adds input ids b added r
    → (b' : Builder) × (added' : Bool) × (r ≡ some (b', added'))
      × Adds input ids b added (some (b', added'))
Adds-some input ids b added none h = absurd h
Adds-some input ids b added (some (b', added')) h = (b', added', refl, h)

key_of_value :
    (n : Node) (nodes : BTreeMap Descriptor Node)
    → Memᴰ n (values nodes)
    → (d : Descriptor) × Memᴰ (d, n) nodes
key_of_value n [] m = elim m [ ]
key_of_value n ((d, w) ∷ nodes) (Memᴰ.head e) = (d, Memᴰ.head (ap (λ x. (d, x)) e))
key_of_value n ((d, w) ∷ nodes) (Memᴰ.tail m) =
    let (k, at) = key_of_value n nodes m in (k, Memᴰ.tail at)

All-map_of {ℓ κ μ} :
    {A : Type ℓ} {B : Type κ} (P : B → Type μ) (f : A → B) (xs : List A)
    → All (λ x. P (f x)) xs
    → All P (map f xs)
All-map_of P f [] a = tt
All-map_of P f (x ∷ xs) a = (a.0, All-map_of P f xs a.1)

pub length-keys : (nodes : BTreeMap Descriptor Node) → length (keys nodes) ≡ length nodes
length-keys [] = refl
length-keys (e ∷ nodes) = ap suc (length-keys nodes)

pub Has-mem :
    (d : Descriptor) (nodes : BTreeMap Descriptor Node) → Has nodes d → Memᴰ d (keys nodes)
Has-mem d nodes h = elim (Option-cases (get d nodes)) [
  | inl n ↦ absurd (let bad = rw n at h in cc)
  | inr (node, n) ↦ mem_keys (mem_of_get d node nodes n)
]

total-le :
    (k : ℕ) (nodes : BTreeMap Descriptor Node)
    → All (λ e. length e.1.depends_on ≤ k) nodes
    → total nodes ≤ k * length nodes
total-le k [] a = omega arith
total-le k (e ∷ nodes) a = grind (arith, total-le k nodes a.1)

loop-again :
    (fuel : ℕ) (b b' : Builder)
    → one_round (keep (λ c. c.match_dependents) b.co) b false ≡ some (b', true)
    → dependents_loop (suc fuel) b ≡ dependents_loop fuel b'
unfolding dependents_loop
loop-again fuel b b' e = rw (dependents_loop, e) refl

loop-stop :
    (fuel : ℕ) (b b' : Builder)
    → one_round (keep (λ c. c.match_dependents) b.co) b false ≡ some (b', false)
    → dependents_loop (suc fuel) b ≡ some b'
unfolding dependents_loop
loop-stop fuel b b' e = rw (dependents_loop, e) refl

new_edge :
    (added old : Bool) (t t' l l' : ℕ)
    → t' + l ≡ t + l'
    → l' ≡ (if old then l else suc l)
    → bool_key (added || not old) + t ≤ bool_key added + t'
new_edge added true t t' l l' h k = ground arith
new_edge true false t t' l l' h k = omega arith
new_edge false false t t' l l' h k = omega arith

module _ (input : GraphInput) (ids : Ids) where
  edge-Adds :
      (b : Builder) (from to : Descriptor) (added : Bool)
      → IsValid input ids b
      → Has b.nodes from
      → Has b.nodes to
      → (b' : Builder) × (new : Bool) × (edge from to b ≡ some (b', new))
        × Adds input ids b added (some (b', added || new))
  unfolding edge
  edge-Adds b from to added v h k = elim (Option-cases (get from b.nodes)) [
    | inl n ↦ absurd (let bad = rw n at h in cc)
    | inr (node, n) ↦
        let node' : Node = record node { depends_on = set_insert to node.depends_on } in
        let (valid, follows, has) =
          put-Keeps v from node node' b.explicit n (edge-IsNode v from to node n k) in
        let same = length-insert from node' b.nodes v.nodes.sorted in
        let there : contains_key from b.nodes ≡ true = contains_key-get from b.nodes ∙ h in
        let more = total-insert from node node' b.nodes v.nodes.sorted n in
        let longer = length-set_insert to node.depends_on (v.nodes.each from node n).sorted in
        (
          record b { nodes = insert from node' b.nodes },
          not (set_contains to node.depends_on),
          rw (edge, n) refl,
          (
            valid,
            follows.0,
            ground (arith, same, there),
            refl,
            new_edge added (set_contains to node.depends_on) _ _ _ _ more longer,
          ),
        )
  ]

  add_consumers-Adds :
      (co : Descriptor) (ds : List Descriptor) (b : Builder) (added : Bool)
      → IsValid input ids b
      → Has b.nodes co
      → All (Has b.nodes) ds
      → Adds input ids b added (add_consumers co ds b added)
  unfolding add_consumers
  add_consumers-Adds co [] b added v h a = (v, λ d x. x, refl, refl, omega arith)
  add_consumers-Adds co (d ∷ ds) b added v h a =
      let (b', new, e, step) = edge-Adds b d co added v a.0 h in
      rw (add_consumers, e)
        (Adds-next input ids b b' added (added || new) _ step
          (add_consumers-Adds co ds b' (added || new) step.0 (step.1 co h) (All-map ds step.1 a.1)))

  consumer-Has :
      (b : Builder) (n : Node)
      → IsValid input ids b
      → Memᴰ n (values b.nodes)
      → Has b.nodes n.descriptor
  consumer-Has b n v m =
      let (d, at) = key_of_value n b.nodes m in
      let found = get_of_mem d n b.nodes v.nodes.sorted at in
      subst (Has b.nodes) (sym (v.nodes.each d n found).own) (ap is_some found)

  consumers-Has :
      (c : CoProvision) (b : Builder)
      → IsValid input ids b
      → All (Has b.nodes) (consumers c b.nodes)
  unfolding consumers
  consumers-Has c b v =
      All-map_of (Has b.nodes) (λ n. n.descriptor) (keep _ (values b.nodes))
        (All-of_Memᴰ (λ n. Has b.nodes n.descriptor) _
          (λ n m. consumer-Has b n v (Memᴰ-keep _ (values b.nodes) m).0))

  one_round-Adds :
      (cs : List CoProvision) (b : Builder) (added : Bool)
      → IsValid input ids b
      → All (λ c. Has b.nodes c.co) cs
      → Adds input ids b added (one_round cs b added)
  unfolding one_round
  one_round-Adds [] b added v a = (v, λ d x. x, refl, refl, omega arith)
  one_round-Adds (c ∷ cs) b added v a =
      let (b', added', e, step) =
        Adds-some input ids b added _
          (add_consumers-Adds c.co (consumers c b.nodes) b added v a.0 (consumers-Has c b v)) in
      rw (one_round, e)
        (Adds-next input ids b b' added added' _ step
          (one_round-Adds cs b' added' step.0 (All-map cs (λ x. step.1 x.co) a.1)))

  depends_on-le :
      (b : Builder) (d : Descriptor) (n : Node)
      → IsValid input ids b
      → get d b.nodes ≡ some n
      → length n.depends_on ≤ length b.nodes
  depends_on-le b d n v h =
      let w = v.nodes.each d n h in
      omega (
        arith,
        length-keys b.nodes,
        length-le_of_Distinct n.depends_on (keys b.nodes)
            (Distinct-of_IsSortedSet n.depends_on w.sorted)
            (λ t m. Has-mem t b.nodes (All-Memᴰ (Has b.nodes) w.closed m)),
      )

  total-bound :
      (b : Builder) → IsValid input ids b → total b.nodes ≤ length b.nodes * length b.nodes
  total-bound b v = total-le (length b.nodes) b.nodes (
      All-of_Memᴰ (λ e. length e.1.depends_on ≤ length b.nodes) b.nodes
        (λ e m. depends_on-le b e.0 e.1 v (get_of_mem e.0 e.1 b.nodes v.nodes.sorted m)))

  dependents_loop-total :
      (fuel : ℕ) (b : Builder)
      → IsValid input ids b
      → length b.nodes * length b.nodes < fuel + total b.nodes
      → (b' : Builder) × (dependents_loop fuel b ≡ some b')
        × IsValid input ids b'
        × Grows b.nodes b'.nodes
        × MatchesDependents b'
  dependents_loop-total zero b v h = absurd (omega (arith, total-bound b v))
  dependents_loop-total (suc fuel) b v h =
      let cs = keep (λ c. c.match_dependents) b.co in
      let (b', added, e, step) = Adds-some input ids b false _ (
        one_round-Adds cs b false v (
          All-of_Memᴰ (λ c. Has b.nodes c.co) cs
            (λ c m. All-Memᴰ (λ c. Has b.nodes c.co) v.co (Memᴰ-keep _ b.co m).0))) in
      elim (Bool-cases added) [
        | inr q ↦ (
          b',
          loop-stop fuel b b' (e ∙ ap (λ a. some (b', a)) q),
          step.0,
          step.1,
          settled-MatchesDependents input ids b b' v (e ∙ ap (λ a. some (b', a)) q),
        )
        | inl q ↦
            let same : length b'.nodes * length b'.nodes ≡ length b.nodes * length b.nodes =
              ap (λ (k : ℕ). k * k) step.2 in
            let more : 1 + total b.nodes ≤ 0 + total b'.nodes = rw q at step.4 in
            let (c, r, w, g, m) =
              dependents_loop-total fuel b' step.0 (omega (arith, same, more, h)) in
            (
              c,
              loop-again fuel b b' (e ∙ ap (λ a. some (b', a)) q) ∙ r,
              w,
              (λ d x. g d (step.1 d x)),
              m,
            )
      ]

  -- In a valid builder `match_dependents` ends within its rounds without a panic, and the builder is
  -- valid again, with every node that it had.
  pub match_dependents_total :
      (b : Builder)
      → IsValid input ids b
      → (b' : Builder) × (match_dependents b ≡ some b')
        × IsValid input ids b'
        × Grows b.nodes b'.nodes
        × MatchesDependents b'
  unfolding match_dependents
  match_dependents_total b v =
      dependents_loop-total (suc (length b.nodes * length b.nodes)) b v (omega arith)
