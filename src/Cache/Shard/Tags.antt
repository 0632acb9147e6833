-- ===== src/Cache/Shard/Tags.antt =====
-- The tags by which replies are matched to requests: `next_id` (src/cache/shard.cpp).
use spoki.Prelude.{ℕ, zero, suc, ◌+◌, ◌*◌, ◌/◌, ◌%◌, ◌^◌, ◌<◌, ◌≡◌, ◌≢◌, arith}
use spoki.Prelude.Words.{u32}
use spoki.Prelude.Bits.{bit_and, bit_or-add, bit_and-mask}
use spoki.Cache.Shard.{ShardState, next_id}

-- `shard_id` holds one byte in its upper eight bits.
abbrev pub HasId : ShardState → ℕ → Type 0
HasId s id = (s.shard_id ≡ id * 2 ^ 24) × (id < 256)

-- `n` more tags taken
pub after : ℕ → ShardState → ShardState
unfolding next_id
after zero s = s
after (suc n) s = after n (next_id s).1

mask24 : (a : ℕ) → bit_and a 0xffffff ≡ a % 2 ^ 24
mask24 a = bit_and-mask 24 a

next_id-sum :
    (s : ShardState) (id : ℕ)
    → HasId s id
    → s.tag_cnt < 2 ^ 24
    → ((next_id s).0 ≡ id * 2 ^ 24 + (s.tag_cnt + 1) % 2 ^ 24)
      × ((next_id s).1.tag_cnt ≡ (s.tag_cnt + 1) % 2 ^ 24)
      × HasId (next_id s).1 id
unfolding next_id
next_id-sum s id h t = ground (
  arith,
  mask24 (u32 (s.tag_cnt + 1)),
  bit_or-add 24 id (u32 (s.tag_cnt + 1) % 2 ^ 24) (omega arith),
)

after-tag_cnt :
    (n : ℕ) (s : ShardState) (id : ℕ)
    → HasId s id
    → s.tag_cnt < 2 ^ 24
    → ((after n s).tag_cnt ≡ (s.tag_cnt + n) % 2 ^ 24) × HasId (after n s) id
unfolding after
after-tag_cnt zero s id h t = (omega arith, h)
after-tag_cnt (suc n) s id h t =
    let (e, c, i) = next_id-sum s id h t in
    let (c', i') = after-tag_cnt n (next_id s).1 id i (omega arith) in (omega arith, i')

-- The tag that the n-th call from now returns.
pub tag : ℕ → ShardState → ℕ
tag n s = (next_id (after n s)).0

tag-sum :
    (n : ℕ) (s : ShardState) (id : ℕ)
    → HasId s id
    → s.tag_cnt < 2 ^ 24
    → tag n s ≡ id * 2 ^ 24 + (s.tag_cnt + n + 1) % 2 ^ 24
unfolding tag
tag-sum n s id h t =
    let (c, i) = after-tag_cnt n s id h t in
    let (e, _, _) = next_id-sum (after n s) id i (omega arith) in omega arith

-- A tag fits 32 bits and names its shard in the upper byte; tags of one shard repeat exactly after
-- 2 ^ 24 calls, and shards with different bytes share none.
pub tags_distinct :
    (s t : ShardState) (a b m n : ℕ)
    → HasId s a
    → HasId t b
    → s.tag_cnt < 2 ^ 24
    → t.tag_cnt < 2 ^ 24
    → (tag m s < 2 ^ 32)
      × (tag m s / 2 ^ 24 ≡ a)
      × (tag m s ≡ tag (m + 2 ^ 24) s)
      × (m < n → n < m + 2 ^ 24 → tag m s ≢ tag n s)
      × (a ≢ b → tag m s ≢ tag n t)
tags_distinct s t a b m n hs ht cs ct =
    let p = tag-sum m s a hs cs in
    let q = tag-sum n s a hs cs in
    let r = tag-sum n t b ht ct in
    let w = tag-sum (m + 2 ^ 24) s a hs cs in
    (omega arith, omega arith, omega arith, λ h k. omega arith, λ h. omega arith)
