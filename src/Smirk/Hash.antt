-- ===== src/Smirk/Hash.antt =====
-- pkg/smirk/src/hash.rs and pkg/zk-primitives/src/path.rs: the hashes of empty trees and the root
-- that a Merkle path leads to, over the hash of two elements, which comes from a library.
use tempo_zk_rollup.Base.{
  ℕ, zero, suc, ◌≡◌, refl, ap₂, Bool, true, false, List, [], ◌∷◌, length, if◌then◌else◌, arith,
}
use tempo_zk_rollup.Smirk.Bits.{Element, Bits, null_hash}

-- `merge l r` is `hash_merge([l, r])`, the Poseidon hash of the `poseidon_circuit` crate.
module _ (merge : Element → Element → Element) where
  -- `empty_tree_hash`: the table `get_cache` and the slow `fallback` hold the same numbers. Depth 0
  -- is refused by an assertion there; here its value is arbitrary, since no tree has that depth.
  unfoldable pub empty_tree_hash : ℕ → Element
  empty_tree_hash zero = null_hash
  empty_tree_hash (suc zero) = null_hash
  empty_tree_hash (suc (suc d)) = let h = empty_tree_hash (suc d) in merge h h

  -- `compute_merkle_root`: the siblings stand deepest first, each with the bit of its level.
  unfoldable pub compute_merkle_root : Element → List (Element × Bool) → Element
  compute_merkle_root leaf [] = leaf
  compute_merkle_root leaf ((sibling, bit) ∷ rest) =
      compute_merkle_root (if bit then merge sibling leaf else merge leaf sibling) rest

  -- The Merkle tree of height `h` over a function from paths to leaves, computed naively.
  unfoldable pub merkle_root : ℕ → (Bits → Element) → Element
  merkle_root zero f = f []
  merkle_root (suc h) f =
      merge (merkle_root h (λ p. f (false ∷ p))) (merkle_root h (λ p. f (true ∷ p)))

  pub merkle_root_congr :
      (h : ℕ) (f g : Bits → Element)
      → ((p : Bits) → length p ≡ h → f p ≡ g p)
      → merkle_root h f ≡ merkle_root h g
  unfolding merkle_root
  merkle_root_congr zero f g e = e [] refl
  merkle_root_congr (suc h) f g e =
      ap₂ merge
        (merkle_root_congr h (λ p. f (false ∷ p)) (λ p. g (false ∷ p))
          (λ p l. e (false ∷ p) (omega arith)))
        (merkle_root_congr h (λ p. f (true ∷ p)) (λ p. g (true ∷ p))
          (λ p l. e (true ∷ p) (omega arith)))

  pub merkle_root-empty : (h : ℕ) → merkle_root h (λ _. null_hash) ≡ empty_tree_hash (suc h)
  unfolding merkle_root empty_tree_hash
  merkle_root-empty zero = refl
  merkle_root-empty (suc h) = ap₂ merge (merkle_root-empty h) (merkle_root-empty h)
