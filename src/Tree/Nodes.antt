-- ===== src/Tree/Nodes.antt =====
-- The `TreeNode` rows of one tree: the object `cached` of light-rollup-tree.ts, `updatedNodes` of
-- nullifier-tree.ts, and the rows that `db.upsert('TreeNode', …)` keeps, keyed by node index.
use zkopru.Base.{
  ℕ, ◌≡◌, refl, Option, none, some, List, [], ◌∷◌, arith, ◌==◌, if◌then◌else◌, All, All-map,
  or_else,
}

abbrev pub NodeMap : Type 0 → Type 0
NodeMap A = List (ℕ × A)

module _ {A : Type 0} where
  unfoldable pub find : ℕ → NodeMap A → Option A
  find k [] = none
  find k ((j, v) ∷ nodes) = if j == k then some v else find k nodes

  -- An assignment to a key, and an upsert of a row.
  unfoldable pub upsert : ℕ → A → NodeMap A → NodeMap A
  upsert k v [] = (k, v) ∷ []
  upsert k v ((j, w) ∷ nodes) = if j == k then (k, v) ∷ nodes else (j, w) ∷ upsert k v nodes

  -- The rows of `updates` are written over `nodes`, in order.
  unfoldable pub upsert_all : NodeMap A → NodeMap A → NodeMap A
  upsert_all [] nodes = nodes
  upsert_all ((k, v) ∷ updates) nodes = upsert_all updates (upsert k v nodes)

  -- `db.findMany` with a list of node indices: the rows that are there.
  unfoldable pub find_many : List ℕ → NodeMap A → NodeMap A
  find_many [] nodes = []
  find_many (k ∷ ks) nodes = elim (find k nodes) [
    | some v ↦ (k, v) ∷ find_many ks nodes
    | none ↦ find_many ks nodes
  ]

  pub find-upsert :
      (j k : ℕ) (v : A) (nodes : NodeMap A)
      → find j (upsert k v nodes) ≡ (if k == j then some v else find j nodes)
  unfolding find upsert
  find-upsert j k v [] = refl
  find-upsert j k v ((i, w) ∷ nodes) = ground (arith, find-upsert j k v nodes)

  -- `updates` hide the rows with their indices.
  abbrev pub view : NodeMap A → NodeMap A → ℕ → Option A
  view updates rows k = or_else (find k updates) (find k rows)

  -- No index twice, as in an object.
  abbrev pub Distinct : NodeMap A → Type 0
  Distinct [] = Unit
  Distinct ((k, v) ∷ nodes) = (find k nodes ≡ none) × Distinct nodes

  pub upsert-Distinct :
      (k : ℕ) (v : A) (nodes : NodeMap A) → Distinct nodes → Distinct (upsert k v nodes)
  unfolding find upsert
  upsert-Distinct k v [] d = (refl, tt)
  upsert-Distinct k v ((j, w) ∷ nodes) d =
      ground (arith, find-upsert j k v nodes, upsert-Distinct k v nodes d.1)

  -- A committed update is what the view showed.
  pub find-upsert_all :
      (updates rows : NodeMap A) (j : ℕ)
      → Distinct updates
      → find j (upsert_all updates rows) ≡ view updates rows j
  unfolding find upsert_all
  find-upsert_all [] rows j d = refl
  find-upsert_all ((k, v) ∷ updates) rows j d =
      ground (arith, find-upsert j k v rows, find-upsert_all updates (upsert k v rows) j d.1)

  pub find-find_many_ne :
      (ks : List ℕ) (nodes : NodeMap A) (j : ℕ)
      → find j nodes ≡ none
      → find j (find_many ks nodes) ≡ none
  unfolding find find_many
  find-find_many_ne [] nodes j h = refl
  find-find_many_ne (k ∷ ks) nodes j h = ground (arith, find-find_many_ne ks nodes j h)

  find-find_many_cons :
      (k : ℕ) (ks : List ℕ) (nodes : NodeMap A) (j : ℕ)
      → find j (find_many ks nodes) ≡ find j nodes
      → find j (find_many (k ∷ ks) nodes) ≡ find j nodes
  unfolding find find_many
  find-find_many_cons k ks nodes j h = ground (arith, h)

  find-find_many_head :
      (k : ℕ) (ks : List ℕ) (nodes : NodeMap A) → find k (find_many (k ∷ ks) nodes) ≡ find k nodes
  unfolding find find_many
  find-find_many_head k ks nodes = ground (arith, find-find_many_ne ks nodes k)

  -- A row that was asked for is found.
  pub find-find_many :
      (ks : List ℕ) (nodes : NodeMap A) → All (λ k. find k (find_many ks nodes) ≡ find k nodes) ks
  find-find_many [] nodes = tt
  find-find_many (k ∷ ks) nodes = (
    find-find_many_head k ks nodes,
    All-map ks (λ j. find-find_many_cons k ks nodes j) (find-find_many ks nodes),
  )
