-- ===== src/Node/Sync/Fast.antt =====
-- What a fast chunk does to the tree: `handle_snapshot_chunk_fast` of pkg/node/src/sync.rs.
use tempo_zk_rollup.Base.{
  ℕ, ◌≡◌, ◌≢◌, refl, sym, subst, ap, ◌∙◌, ◌⊎◌, ◌↔◌, inl, inr, Bool, true, false, not, ◌&&◌, ◌||◌,
  List, [], ◌∷◌, Option, none, some, map, any, All, All-filter, ◌==◌, Bool-cases, Option-cases,
  ==→eq, some_injective, arith,
}
use tempo_zk_rollup.Base.HashMap.{nat_eq}
use tempo_zk_rollup.Smirk.Bits.{Element, null_hash}
use tempo_zk_rollup.Smirk.Batch.{Batch, elements, from_entries, from_entries-IsValid}
use tempo_zk_rollup.Smirk.Batch
use tempo_zk_rollup.Smirk.Tree.{Tree, root_hash, root_hash_with, contains_element, insert_batch}
use tempo_zk_rollup.Smirk.Tree.Root.{root_hash_with-insert_batch}
use tempo_zk_rollup.Smirk.Tree.Valid.{IsValid}
use tempo_zk_rollup.Doomslug.Approval.{BlockHeight, CryptoHash}
use tempo_zk_rollup.BlockStore.Db.{RocksDb}
use tempo_zk_rollup.Node.Utxo.{UtxoProof}
use tempo_zk_rollup.Node.Validate.{Block, block_leaves, non_null}
use tempo_zk_rollup.Node.Apply.{persistent_insert_batch, persistent_insert_batch_lem}
use tempo_zk_rollup.Node.State.{Config, NodeShared, Codec}
use tempo_zk_rollup.Node.BlockCache.{confirm}
use tempo_zk_rollup.Node.Proposal.{receive_proposal}
use tempo_zk_rollup.Node.Sync.Chunks.{
  distinct, new_elements, fast_entries, has_leaves, previous_height, FastResult, handled,
  after_insert, insert_chunk, handle_snapshot_chunk_fast,
}
use tempo_zk_rollup.Node.Sync.Elements.{
  IsNew, new_elements-IsNew, Covers, has_leaves_iff, any-fast_entries,
}
use tempo_zk_rollup.Node.Sync.Chunks

module _ {D : Type 0} (db : RocksDb D) (codec : Codec) (merge : Element → Element → Element)
    (txn_hash : UtxoProof → CryptoHash) (is_open : ℕ → Bool) (block_hash : Block → CryptoHash)
    (config : Config) where
  receive_proposal-notes_tree :
      (b : Block) (s s' : NodeShared D)
      → receive_proposal db codec merge txn_hash is_open block_hash config b s ≡ some s'
      → s'.notes_tree ≡ s.notes_tree
  unfolding receive_proposal
  receive_proposal-notes_tree b s s' q = ground (arith, ap tree_of q)
    where
      tree_of : Option (NodeShared D) → Tree BlockHeight
      tree_of none = s.notes_tree
      tree_of (some t) = t.notes_tree

  -- The tree foretells the root of the block, and the chunk has the leaves of the block.
  abbrev pub Fits : Tree BlockHeight → List Element → List Element → Block → Type 0
  Fits tree elements new block =
      (root_hash_with merge config.tree_depth tree new ≡ some block.content.state.root_hash)
      × Covers tree elements block

  -- The tree after a fast chunk that is taken: it holds the old elements and those of the chunk
  -- that are not leaves of the block, and where the leaves could be put in with the others the
  -- root would be that of the block.
  pub record Taken (block : Block) (elements new : List Element) (tree tree' : Tree BlockHeight)
      : Type 0 where
    pub valid : IsValid merge config.tree_depth tree'
    pub keys :
        (e : Element)
        → (contains_element tree' e ≡ true) ↔ (
            (contains_element tree e ≡ true)
            ⊎ ((any (λ x. x == e) elements ≡ true)
                × (any (λ x. x == e) (non_null (block_leaves block.content.state.txns)) ≡ false)))
    pub root :
        (b : Batch BlockHeight)
        → from_entries config.tree_depth (map (λ e. (e, 0)) new) ≡ Batch.ok b
        → (insert_batch merge config.tree_depth tree b).1 ≡ Batch.ok tt
        → root_hash merge (insert_batch merge config.tree_depth tree b).0.0
          ≡ block.content.state.root_hash

  -- The two ends of a fast chunk.
  abbrev pub FastEnd : Block → List Element → NodeShared D → NodeShared D → Type 0
  FastEnd block elements s s' =
      (new : List Element) × IsNew s.notes_tree elements new
      × ((¬ Fits s.notes_tree elements new block × (s' ≡ s))
          ⊎ (Fits s.notes_tree elements new block
              × Taken block elements new s.notes_tree s'.notes_tree))

  handled-injective : {a b : NodeShared D} → ◌≡◌ {A = FastResult D} (handled a) (handled b) → a ≡ b
  handled-injective q = cc

  after_insert-tree :
      (block : Block) (s s' : NodeShared D) (r : Batch.Checked (Tree BlockHeight))
      → after_insert db codec merge txn_hash is_open block_hash config block s r ≡ handled s'
      → r ≡ Batch.ok s'.notes_tree
  after_insert-tree block s s' (Batch.ok tree) q =
      by_proposal
        (receive_proposal db codec merge txn_hash is_open block_hash config block (record s {
          notes_tree = tree;
          block_cache = confirm (previous_height block) s.block_cache;
        }))
        refl q
    where
      by_proposal :
          (o : Option (NodeShared D))
          → receive_proposal db codec merge txn_hash is_open block_hash config block (record s {
            notes_tree = tree;
            block_cache = confirm (previous_height block) s.block_cache;
          })
            ≡ o
          → (elim o as (λ x. FastResult D) [
            | none ↦ Chunks.panics (record s {
              notes_tree = tree;
              block_cache = confirm (previous_height block) s.block_cache;
            })
            | some s2 ↦ handled s2
          ])
            ≡ handled s'
          → Batch.ok tree ≡ Batch.ok s'.notes_tree
      by_proposal none n h = absurd (cc)
      by_proposal (some s2) n h = ap Batch.ok (
          sym (receive_proposal-notes_tree block _ s2 n)
          ∙ ap (λ (x : NodeShared D). x.notes_tree) (handled-injective h))
  after_insert-tree block s s' (Batch.collides cs) q = absurd (cc)
  after_insert-tree block s s' Batch.panics q = absurd (cc)

  distinct-null : (es : List Element) → All (λ e. e ≢ 0) es → All (λ e. e ≢ 0) (distinct es)
  distinct-null [] h = tt
  distinct-null (e ∷ es) h =
      (h.0, All-filter (λ x. x ≢ 0) (λ y. not (y == e)) (distinct es) (distinct-null es h.1))

  entries-null :
      (es : List Element)
      → All (λ e. e ≢ 0) es
      → All (λ (x : Element × BlockHeight). x.0 ≢ null_hash) (map (λ e. (e, 0)) es)
  entries-null [] h = tt
  entries-null (e ∷ es) h = (h.0, entries-null es h.1)

  firsts :
      (xs : List Element) → map (λ (x : Element × BlockHeight). x.0) (map (λ e. (e, 0)) xs) ≡ xs
  firsts [] = refl
  firsts (x ∷ xs) = rw (firsts xs)

  foretold_root :
      (tree : Tree BlockHeight) (new : List Element) (root : Element) (b : Batch BlockHeight)
      → IsValid merge config.tree_depth tree
      → All (λ e. e ≢ 0) new
      → root_hash_with merge config.tree_depth tree new ≡ some root
      → from_entries config.tree_depth (map (λ e. (e, 0)) new) ≡ Batch.ok b
      → (insert_batch merge config.tree_depth tree b).1 ≡ Batch.ok tt
      → root_hash merge (insert_batch merge config.tree_depth tree b).0.0 ≡ root
  foretold_root tree new root b v nz foretold p done =
      let (valid, same) = from_entries-IsValid config.tree_depth b _ p in
      let inserted =
        root_hash_with-insert_batch merge config.tree_depth tree b v valid
          (subst (λ (l : List (Element × BlockHeight)). All (λ x. x.0 ≢ null_hash) l) (sym same)
            (entries-null new nz))
          done in
      let listed : elements b ≡ new =
        ap (λ (l : List (Element × BlockHeight)). map (λ x. x.0) l) same ∙ firsts new in
      some_injective
        (sym inserted ∙ ap (λ l. root_hash_with merge config.tree_depth tree l) listed ∙ foretold)

  insert_chunk-Taken :
      (block : Block) (chunk new : List Element) (s s' : NodeShared D)
      → IsValid merge config.tree_depth s.notes_tree
      → IsNew s.notes_tree chunk new
      → All (λ e. e ≢ 0) new
      → root_hash_with merge config.tree_depth s.notes_tree new ≡ some block.content.state.root_hash
      → (r : Batch.Checked (Batch BlockHeight))
      → from_entries config.tree_depth (fast_entries block new) ≡ r
      → insert_chunk db codec merge txn_hash is_open block_hash config block new s r ≡ handled s'
      → (¬ Fits s.notes_tree chunk new block × (s' ≡ s))
        ⊎ (Fits s.notes_tree chunk new block × Taken block chunk new s.notes_tree s'.notes_tree)
  insert_chunk-Taken block chunk new s s' v n nz root (Batch.ok b) p q =
      elim (Bool-cases (has_leaves block new)) [
        | inl t ↦
            let (valid, same) =
              from_entries-IsValid config.tree_depth b (fast_entries block new) p in
            let inserted =
              after_insert-tree block s s'
                (persistent_insert_batch merge config.tree_depth s.notes_tree b) (rw (t) at q) in
            let r =
              persistent_insert_batch_lem merge config.tree_depth s.notes_tree s'.notes_tree b v
                valid
                (subst (λ (l : List (Element × BlockHeight)). All (λ x. x.0 ≢ null_hash) l)
                  (sym same) (entries-null _ (All-filter (λ e. e ≢ 0) _ new nz)))
                inserted in
            inr (
              (root, (has_leaves_iff s.notes_tree chunk new block n).0 t),
              record {
                valid = r.valid;
                keys = λ e.
                    keys_iff e
                      (r.keys e
                        ∙ ap
                            (λ (l : List (Element × BlockHeight)).
                              any (λ x. x.0 == e) l || contains_element s.notes_tree e)
                            same
                        ∙ ap (λ c. c || contains_element s.notes_tree e)
                            (any-fast_entries block new e))
                      (n.members e);
                root = λ c made done.
                    foretold_root s.notes_tree new block.content.state.root_hash c v nz root made
                      done;
              },
            )
        | inr f ↦ inl (
          λ fits. differ ((has_leaves_iff s.notes_tree chunk new block n).1 fits.1) f,
          sym (handled-injective (rw (f) at q)),
        )
      ]
    where
      differ : {b : Bool} → b ≡ true → b ≡ false → ⊥
      differ x y = cc

      keys_iff :
          (e : Element) {after before in_new in_chunk leaf : Bool}
          → after ≡ ((not leaf && in_new) || before)
          → in_new ≡ (not before && in_chunk)
          → (after ≡ true) ↔ ((before ≡ true) ⊎ ((in_chunk ≡ true) × (leaf ≡ false)))
      keys_iff e x y = ground arith
  insert_chunk-Taken block chunk new s s' v n nz root (Batch.collides cs) p q = absurd (cc)
  insert_chunk-Taken block chunk new s s' v n nz root Batch.panics p q = absurd (cc)

  -- Where a fast chunk with a block and without a null element is handled without an error on a
  -- well-formed tree, call the elements of the chunk that the tree does not have, each once,
  -- the new ones. If `root_hash_with` does not give the root of the block for the new elements,
  -- or some leaf of the block that is not null is not in the chunk or already in the tree, the
  -- state is as before. Else the tree is well-formed and holds the old elements and those of
  -- the chunk that are not leaves of the block, and no others; and if all new elements can be
  -- inserted into the old tree, the tree with them has the root of the block.
  pub handle_snapshot_chunk_fast-FastEnd :
      (block : Block) (elements : List Element) (s s' : NodeShared D)
      → IsValid merge config.tree_depth s.notes_tree
      → All (λ e. e ≢ 0) elements
      → handle_snapshot_chunk_fast db codec merge txn_hash is_open block_hash config
          (some block)
          elements
          s
        ≡ handled s'
      → FastEnd block elements s s'
  unfolding handle_snapshot_chunk_fast
  handle_snapshot_chunk_fast-FastEnd block chunk s s' v nz q =
      let new = new_elements s.notes_tree chunk in
      let n = new_elements-IsNew s.notes_tree chunk in
      (
        new,
        n,
        elim (Option-cases (root_hash_with merge config.tree_depth s.notes_tree new)) [
          | inl e ↦ absurd (refused (rw (e, handle_snapshot_chunk_fast) at q))
          | inr (root, e) ↦ elim (Bool-cases (root == block.content.state.root_hash)) [
            | inl t ↦
                insert_chunk-Taken block chunk new s s' v n
                  (All-filter (λ e. e ≢ 0) _ (distinct chunk) (distinct-null chunk nz))
                  (e ∙ ap some (==→eq root block.content.state.root_hash t)) _ refl
                  (rw (e, t, handle_snapshot_chunk_fast) at q)
            | inr f ↦ inl (
              λ fits. other f (some_injective (sym e ∙ fits.0)),
              sym (handled-injective (rw (e, f, handle_snapshot_chunk_fast) at q)),
            )
          ]
        ],
      )
    where
      refused : {a b : NodeShared D} → ◌≡◌ {A = FastResult D} (Chunks.panics a) (handled b) → ⊥
      refused p = cc

      other : {a b : Element} → (a == b) ≡ false → a ≡ b → ⊥
      other f p = ground arith
