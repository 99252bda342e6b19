-- ===== src/Node/BlockCache.antt =====
-- The cache of blocks that are not committed: pkg/node/src/cache.rs.
use tempo_zk_rollup.Base.{
  ℕ, zero, suc, ◌+◌, ◌-◌, ◌≤◌, ◌<◌, ◌≡◌, Bool, true, false, not, ◌&&◌, ◌||◌, List, [], ◌∷◌, Option,
  none, some, length, ltb, leb, if◌then◌else◌,
}
use tempo_zk_rollup.Base.TreeMap
use tempo_zk_rollup.Base.HashMap
use tempo_zk_rollup.Base.HashMap.{nat_eq}
use tempo_zk_rollup.Doomslug.Approval.{BlockHeight, CryptoHash}
use tempo_zk_rollup.Node.Validate.{Block}
pub mod Heights

-- `block_hash_heights` is the ascending list of the heights with the hashes.
pub record BlockCache : Type 0 where
  pub height : BlockHeight
  pub max_height : BlockHeight
  pub blocks : List (CryptoHash × Block)
  pub block_hash_heights : List (BlockHeight × CryptoHash)
  pub max_cache_size : ℕ

-- `iter().last()`.
abbrev pub last : {A : Type 0} → List A → Option A
last [] = none
last (x ∷ xs) = let rest = last xs in elim rest [ none ↦ some x | some y ↦ some y ]

abbrev pub height_of : Block → BlockHeight
height_of b = b.content.header.height

-- `BlockCache::hash`: the hash at the confirmed height; without one it panics.
abbrev pub cache_hash : BlockCache → Option CryptoHash
cache_hash c = TreeMap.lookup c.height c.block_hash_heights

-- `BlockCache::remove`.
unfoldable pub remove : CryptoHash → BlockCache → BlockCache
remove hash c = elim (HashMap.lookup hash c.blocks) [
  | none ↦ c
  | some b ↦ record c {
    blocks = HashMap.remove hash c.blocks;
    block_hash_heights = TreeMap.remove (height_of b) c.block_hash_heights;
  }
]

-- The last height of the map with its hash, or zeros.
abbrev pub max_entry : BlockCache → BlockHeight × CryptoHash
max_entry c = elim (last c.block_hash_heights) [ none ↦ (0, 0) | some x ↦ x ]

-- What `insert` does once it has kept track of the maximum.
unfoldable pub store_block : CryptoHash → Block → BlockCache → BlockCache
unfolding remove
store_block block_hash block c =
    let at_capacity = leb c.max_cache_size (length c.blocks) in
    let c' = if at_capacity then remove (max_entry c).1 c else c in
    if at_capacity && ltb (max_entry c).0 (height_of block) then c else record c' {
      block_hash_heights = TreeMap.insert (height_of block) block_hash c'.block_hash_heights;
      blocks = HashMap.insert block_hash block c'.blocks;
    }

module _ (hash : Block → CryptoHash) where
  -- `BlockCache::insert`, where `hash` is `content.hash()`.
  unfoldable pub insert : Block → BlockCache → BlockCache
  unfolding store_block
  insert block c =
      if ltb (height_of block) c.height
      then c
      else store_block (hash block) block (
          if ltb c.max_height (height_of block)
          then record c { max_height = height_of block }
          else c)

  -- `BlockCache::new`.
  unfoldable pub new : Block → ℕ → BlockCache
  unfolding insert
  new start_block max_cache_size = insert start_block (record {
    height = height_of start_block;
    max_height = height_of start_block;
    blocks = [];
    block_hash_heights = [];
    max_cache_size = max_cache_size;
  })

-- The loop of `confirm` over the heights below the confirmed one.
unfoldable pub remove_below :
    BlockHeight → List (BlockHeight × CryptoHash) → BlockCache → BlockCache
remove_below height [] c = c
remove_below height ((h, hash) ∷ rest) c =
    let dropped = remove_below height rest (record c {
      block_hash_heights = TreeMap.remove h c.block_hash_heights;
      blocks = HashMap.remove hash c.blocks;
    }) in
    let kept = remove_below height rest c in if ltb h height then dropped else kept

-- `BlockCache::confirm`.
unfoldable pub confirm : BlockHeight → BlockCache → BlockCache
unfolding remove_below
confirm height c = remove_below height c.block_hash_heights (record c { height = height })

-- `BlockCache::get_by_height`.
unfoldable pub get_by_height : BlockHeight → BlockCache → Option Block
get_by_height height c = elim (TreeMap.lookup height c.block_hash_heights) [
  | none ↦ none
  | some hash ↦ HashMap.lookup hash c.blocks
]

-- `BlockCache::get_range`.
abbrev pub blocks_in :
    BlockHeight
    → BlockHeight
    → List (CryptoHash × Block)
    → List (BlockHeight × CryptoHash)
    → List Block
blocks_in start end blocks [] = []
blocks_in start end blocks ((h, hash) ∷ rest) =
    let later = blocks_in start end blocks rest in
    if leb start h && ltb h end
    then elim (HashMap.lookup hash blocks) [ none ↦ later | some b ↦ b ∷ later ]
    else later

unfoldable pub get_range : BlockHeight → BlockHeight → BlockCache → List Block
get_range start end c = blocks_in start end c.blocks c.block_hash_heights

-- Whether one of the `n` heights from `h` on is missing.
abbrev pub missing : ℕ → BlockHeight → List (BlockHeight × CryptoHash) → Bool
missing zero h m = false
missing (suc n) h m = not (TreeMap.contains_key h m) || missing n (h + 1) m

-- `BlockCache::is_out_of_sync`; `none` is the panic on an empty map.
unfoldable pub is_out_of_sync : BlockCache → Option Bool
is_out_of_sync c = elim (last c.block_hash_heights) [
  | none ↦ none
  | some x ↦ some (
      ltb x.0 c.max_height || missing (c.max_height - c.height) (c.height + 1) c.block_hash_heights)
]

-- `BlockCache::get_next_commit_block`.
unfoldable pub get_next_commit_block : BlockCache → Option Block
unfolding get_by_height
get_next_commit_block c = get_by_height (c.height + 1) c
