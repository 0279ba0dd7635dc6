-- ===== src/Scheduler/Partition.antt =====
-- partition: the shards cut the entity list without loss or overlap.
use simulator.Common.{
  ℕ, zero, suc, ◌+◌, ◌-◌, ◌*◌, ◌/◌, ◌≤◌, ◌<◌, min, ◌≡◌, refl, sym, ap, ◌∙◌, inl, inr, false, List,
  [], ◌∷◌, arith, Returns, returns, ltb, leb, ◌==◌, if◌then◌else◌, Bool-cases, length, get_or, take,
  drop, length-take, length-drop, take-append-drop, drop-drop,
}
use mathlib.Core.List.{flatten}
use simulator.Scheduler.{shards_from, partition}

abbrev shard : List ℕ → ℕ → ℕ → List ℕ
shard entities chunk i =
    let n = length entities in
    let start = i * chunk in
    let end = if ltb n (start + chunk) then n else start + chunk in
    if leb n start then [] else take (end - start) (drop start entities)

take-min : (n : ℕ) (xs : List ℕ) → length xs ≤ n → take n xs ≡ xs
take-min zero [] h = refl
take-min zero (x ∷ xs) h = absurd (omega arith)
take-min (suc n) [] h = refl
take-min (suc n) (x ∷ xs) h = ap (◌∷◌ x) (take-min n xs (omega arith))

drop-all : (n : ℕ) (xs : List ℕ) → length xs ≤ n → drop n xs ≡ []
drop-all zero [] h = refl
drop-all zero (x ∷ xs) h = absurd (omega arith)
drop-all (suc n) [] h = refl
drop-all (suc n) (x ∷ xs) h = drop-all n xs (omega arith)

-- A shard is the next `chunk` entities, as far as there are any.
shard-eq-take :
    (entities : List ℕ) (chunk i : ℕ)
    → shard entities chunk i ≡ take chunk (drop (i * chunk) entities)
shard-eq-take entities chunk i = elim (Bool-cases (leb (length entities) (i * chunk))) [
  | inl past ↦
      rw (past, drop-all (i * chunk) entities (ground arith))
        (sym (take-min chunk [] (omega arith)))
  | inr inside ↦ elim (Bool-cases (ltb (length entities) (i * chunk + chunk))) [
    | inl last ↦
        let size = length-drop (i * chunk) entities in
        rw (inside, last)
          (take-min (length entities - i * chunk) (drop (i * chunk) entities) (omega (arith, size))
            ∙ sym (take-min chunk (drop (i * chunk) entities) (ground (arith, size))))
    | inr full ↦ let e : i * chunk + chunk - i * chunk ≡ chunk = omega arith in rw (inside, full, e)
  ]
]

-- The shards from `i` on are what is left of the list from `i * chunk` on, if they reach its end.
flatten-shards_from :
    (entities : List ℕ) (chunk i left : ℕ)
    → length entities ≤ (i + left) * chunk
    → flatten (shards_from entities chunk i left) ≡ drop (i * chunk) entities
unfolding shards_from flatten
flatten-shards_from entities chunk i zero h = sym (drop-all (i * chunk) entities (grind arith))
flatten-shards_from entities chunk i (suc left) h =
    let next : (i + 1) * chunk ≡ i * chunk + chunk = grind arith in
    let more : length entities ≤ (i + 1 + left) * chunk = grind arith in
    rw
      (
        shard-eq-take entities chunk i,
        flatten-shards_from entities chunk (i + 1) left more,
        next,
        ← drop-drop chunk (i * chunk) entities,
      )
      (take-append-drop chunk (drop (i * chunk) entities))

length-shards_from :
    (entities : List ℕ) (chunk i left : ℕ) → length (shards_from entities chunk i left) ≡ left
unfolding shards_from
length-shards_from entities chunk i zero = refl
length-shards_from entities chunk i (suc left) =
    ap suc (length-shards_from entities chunk (i + 1) left)

shard_small :
    (entities : List ℕ) (chunk i left k : ℕ)
    → k < left
    → length (get_or (shards_from entities chunk i left) k []) ≤ chunk
unfolding shards_from
shard_small entities chunk i zero k h = absurd (omega arith)
shard_small entities chunk i (suc left) zero h =
    rw (shard-eq-take entities chunk i)
      (omega (arith, length-take chunk (drop (i * chunk) entities)))
shard_small entities chunk i (suc left) (suc k) h =
    shard_small entities chunk (i + 1) left k (omega arith)

-- `w` chunks of the rounded-up size reach the end of the list.
chunks_reach : (n w : ℕ) → 0 < w → n ≤ w * ((n + w - 1) / w)
chunks_reach n w h = grind arith

-- The bound on the size of a shard: the entities divided by the workers in use, rounded up.
abbrev pub chunk_of : ℕ → ℕ → ℕ
chunk_of n workers = let w = if ltb n workers then n else workers in (n + w - 1) / w

pub record IsPartition (entities : List ℕ) (workers : ℕ) (shards : List (List ℕ)) : Type 0 where
  pub covers : flatten shards ≡ entities
  pub count : length shards ≡ min workers (length entities)
  pub balanced :
      (k : ℕ) → k < length shards → length (get_or shards k []) ≤ chunk_of (length entities) workers

-- For two or more workers and a list that is not empty, partition succeeds; the shards in order
-- are the entity list, there is one for each worker (or entity, if those are fewer), and none is
-- longer than the share of a worker, rounded up. So each shard is a run of neighbours in the list.
pub partition_correct :
    (entities : List ℕ) (workers : ℕ)
    → 1 < workers
    → 0 < length entities
    → Returns (IsPartition entities workers) (partition entities workers)
unfolding partition
partition_correct entities workers many nonempty =
    let n = length entities in
    let w : ℕ = if ltb n workers then n else workers in
    let size : w ≡ min workers n = ground arith in
    let chunk : ℕ = (n + w - 1) / w in
    let par : leb workers 1 ≡ false = ground arith in
    let nonzero : (w == 0) ≡ false = ground arith in
    let start : 0 * chunk ≡ 0 = omega arith in
    rw (par, nonzero)
      (returns (record {
        covers =
            flatten-shards_from entities chunk 0 w (omega (arith, chunks_reach n w (ground arith)))
            ∙ ap (λ k. drop k entities) start;
        count = length-shards_from entities chunk 0 w ∙ size;
        balanced = λ k h.
            shard_small entities chunk 0 w k (omega (arith, length-shards_from entities chunk 0 w));
      }))
