-- ===== src/Lsm/BlockCache.antt =====
-- storage-node/src/block_cache.rs: three pools of blocks, each a list of recency linked through a map. `none` is a
-- missing key of the map, a number below 0, or fuel that is used up.
pub mod Segments
pub mod Links
pub mod Moves
pub mod Changes
pub mod Policy
pub mod Evict
pub mod Steps
pub mod Pools
pub mod Coherence
pub mod Runs
pub mod Insertions
use wow_db.Prelude.{
  ℕ, zero, suc, ◌+◌, ◌-◌, ◌*◌, ◌/◌, ◌%◌, ◌^◌, String, string_eq, nat_eq, Key, ◌==◌, ==_iff, ◌≡◌,
  ◌↔◌, refl, ap, ◌∙◌, arith, Bool, true, false, ◌&&◌, List, [], ◌∷◌, Option, none, some, length,
  lookup, insert, remove, ltb, leb, if◌then◌else◌,
}

-- `Data`, `Filter` and `Index`.
pub data BlockType : Type 0 where
  data_block filter_block index_block : BlockType

abbrev pub type_code : BlockType → ℕ
type_code data_block = 0
type_code filter_block = 1
type_code index_block = 2

pub record BlockKey : Type 0 where
  pub partition : String
  pub column : String
  pub segment : ℕ
  pub block_type : BlockType

abbrev pub same_type : BlockType → BlockType → Bool
same_type a b = type_code a == type_code b

same_type_lem : (a b : BlockType) → type_code a ≡ type_code b → a ≡ b
same_type_lem data_block data_block h = cc
same_type_lem data_block filter_block h = absurd (omega (arith, h))
same_type_lem data_block index_block h = absurd (omega (arith, h))
same_type_lem filter_block data_block h = absurd (omega (arith, h))
same_type_lem filter_block filter_block h = cc
same_type_lem filter_block index_block h = absurd (omega (arith, h))
same_type_lem index_block data_block h = absurd (omega (arith, h))
same_type_lem index_block filter_block h = absurd (omega (arith, h))
same_type_lem index_block index_block h = cc

abbrev pub key_eqb : BlockKey → BlockKey → Bool
key_eqb a b =
    a.partition == b.partition
    && (a.column == b.column && (a.segment == b.segment && same_type a.block_type b.block_type))

pub key_eqb_iff : (a b : BlockKey) → (key_eqb a b ≡ true) ↔ (a ≡ b)
key_eqb_iff a b = (to, from)
  where
    to : key_eqb a b ≡ true → a ≡ b
    to h =
        let p : a.partition ≡ b.partition = ground (arith, h, ==_iff a.partition b.partition) in
        let c : a.column ≡ b.column = ground (arith, h, ==_iff a.column b.column) in
        let s : a.segment ≡ b.segment = ground (arith, h) in
        let t : a.block_type ≡ b.block_type =
          same_type_lem a.block_type b.block_type (ground (arith, h)) in
        cc (p, c, s, t)

    from : a ≡ b → key_eqb a b ≡ true
    from h = ground (arith, h, ==_iff a.partition a.partition, ==_iff a.column a.column)

instance abbrev pub block_key_eq : Key BlockKey
block_key_eq = record { eqb = key_eqb; eqb_iff = key_eqb_iff }

pub record Node : Type 0 where
  pub key : BlockKey
  pub value : List ℕ
  pub resist : ℕ
  pub prev : Option BlockKey
  pub next : Option BlockKey

abbrev pub filter_resist_count : ℕ
filter_resist_count = 3

pub record LruPool : Type 0 where
  pub map : List (BlockKey × Node)
  pub head : Option BlockKey
  pub tail : Option BlockKey
  pub used_bytes : ℕ
  pub max_bytes : ℕ
  pub block_type : BlockType

unfoldable pub new_pool : ℕ → BlockType → LruPool
new_pool max_bytes block_type = record {
  map = [];
  head = none;
  tail = none;
  used_bytes = 0;
  max_bytes = max_bytes;
  block_type = block_type;
}

-- A change through `get_mut`, when the key is there.
unfoldable pub modify : (Node → Node) → BlockKey → List (BlockKey × Node) → List (BlockKey × Node)
modify f k m = elim (lookup k m) [ none ↦ m | some n ↦ insert k (f n) m ]

abbrev pub modify_opt :
    (Node → Node) → Option BlockKey → List (BlockKey × Node) → List (BlockKey × Node)
modify_opt f none m = m
modify_opt f (some k) m = modify f k m

abbrev pub set_prev : Option BlockKey → Node → Node
set_prev p n = record n { prev = p }

abbrev pub set_next : Option BlockKey → Node → Node
set_next q n = record n { next = q }

abbrev pub set_links : Option BlockKey → Option BlockKey → Node → Node
set_links p q n = record n { prev = p; next = q }

abbrev pub is_at : Option BlockKey → BlockKey → Bool
is_at none k = false
is_at (some h) k = h == k

-- The tail, when the node that moves to the head stood before `next`.
abbrev pub tail_after : Option BlockKey → Option BlockKey → Option BlockKey → Option BlockKey
tail_after none prev tail = prev
tail_after (some n) prev tail = tail

unfoldable pub move_to_head : BlockKey → LruPool → Option LruPool
move_to_head k p = if is_at p.head k then some p else elim (lookup k p.map) [
  | none ↦ none
  | some node ↦ some (record p {
    map = modify (set_links none p.head) k (
        modify_opt (set_prev (some k)) p.head (
          modify_opt (set_prev node.prev) node.next
            (modify_opt (set_next node.next) node.prev p.map)));
    head = some k;
    tail = tail_after node.next node.prev p.tail;
  })
]

-- `self.map.get(key).map(|n| n.value.clone())`
abbrev pub value_of : BlockKey → LruPool → Option (List ℕ)
value_of k p = elim (lookup k p.map) [ none ↦ none | some n ↦ some n.value ]

unfoldable pub get : BlockKey → LruPool → Option (LruPool × Option (List ℕ))
get k p = elim (lookup k p.map) [
  | none ↦ some (p, none)
  | some n ↦ elim (move_to_head k p) [ none ↦ none | some p' ↦ some (p', value_of k p') ]
]

-- `usize`
abbrev pub add_usize : ℕ → ℕ → ℕ
add_usize a b = (a + b) % 2 ^ 64

abbrev pub sub_usize : ℕ → ℕ → ℕ
sub_usize a b = (a + 2 ^ 64 - b) % 2 ^ 64

-- The head, when the pool has this tail.
abbrev pub head_after : Option BlockKey → Option BlockKey → Option BlockKey
head_after none head = none
head_after (some t) head = head

unfoldable pub remove_tail : BlockKey → LruPool → LruPool
remove_tail k p = elim (lookup k p.map) [
  | none ↦ p
  | some node ↦ record p {
    map = modify_opt (set_next none) node.prev (remove k p.map);
    head = head_after node.prev p.head;
    tail = node.prev;
    used_bytes = sub_usize p.used_bytes (length node.value);
  }
]

abbrev pub lower : Node → Node
lower n = record n { resist = n.resist - 1 }

-- Whether the tail of a pool of filters resists once more.
abbrev pub resists : LruPool → BlockKey → Bool
resists p k =
    same_type p.block_type filter_block
    && elim (lookup k p.map) [ none ↦ false | some n ↦ ltb 0 n.resist ]

unfoldable pub try_evict_tail : LruPool → Option LruPool
try_evict_tail p = elim p.tail [
  | none ↦ some p
  | some k ↦
      if resists p k
      then move_to_head k (record p { map = modify lower k p.map })
      else some (remove_tail k p)
]

abbrev pub is_some : Option BlockKey → Bool
is_some none = false
is_some (some k) = true

-- `while self.used_bytes + size > self.max_bytes && self.tail.is_some()`
unfoldable pub make_room : ℕ → ℕ → LruPool → Option LruPool
make_room zero size p = none
make_room (suc fuel) size p =
    if ltb p.max_bytes (add_usize p.used_bytes size) && is_some p.tail
    then elim (try_evict_tail p) [ none ↦ none | some p' ↦ make_room fuel size p' ]
    else some p

-- How often the entries of a pool can be tried.
unfoldable pub tries : List (BlockKey × Node) → ℕ
tries [] = 0
tries ((k, n) ∷ m) = n.resist + 1 + tries m

abbrev pub first_resist : BlockType → ℕ
first_resist filter_block = filter_resist_count
first_resist _ = 0

-- A new node at the head.
unfoldable pub push_head : BlockKey → List ℕ → LruPool → LruPool
push_head k value p = record p {
  map =
      insert k
        (record {
          key = k;
          value = value;
          resist = first_resist p.block_type;
          prev = none;
          next = p.head;
        })
        (modify_opt (set_prev (some k)) p.head p.map);
  head = some k;
  tail = elim p.head [ none ↦ some k | some h ↦ p.tail ];
  used_bytes = add_usize p.used_bytes (length value);
}

abbrev pub set_value : List ℕ → Node → Node
set_value value n = record n { value = value }

unfoldable pub insert_block : BlockKey → List ℕ → LruPool → Option LruPool
insert_block k value p = elim (lookup k p.map) [
  | some n ↦ move_to_head k (record p {
    map = modify (set_value value) k p.map;
    used_bytes = add_usize (sub_usize p.used_bytes (length n.value)) (length value);
  })
  | none ↦ elim (make_room (1 + tries p.map) (length value) p) [
    | none ↦ none
    | some p' ↦ some (push_head k value p')
  ]
]
