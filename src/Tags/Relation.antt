-- ===== src/Tags/Relation.antt =====
-- pkg/simulation/tags.go: the bitsets as a relation of entities and tags.
use simulator.Common.{
  ℕ, ◌≡◌, ap, ◌∙◌, Bool, not, ◌&&◌, ◌||◌, Option, none, some, List, [], ◌∷◌, ◌>>=◌, Returns,
  returns, ◌==◌,
}
use simulator.Tags.{TagStore, add_tag, remove_tag, remove_entity, has_tag}
use simulator.Tags.Bitset.{IsAdded, add_tag_correct, remove_tag_correct, remove_entity_correct}

pub data TagOp : Type 0 where
  add_op remove_op : ℕ → ℕ → TagOp
  remove_entity_op : ℕ → TagOp

unfoldable pub tag_step : TagOp → TagStore → Option TagStore
tag_step (add_op e t) s = add_tag s e t
tag_step (remove_op e t) s = some (remove_tag s e t)
tag_step (remove_entity_op e) s = some (remove_entity s e)

unfoldable pub run_tags : List TagOp → TagStore → Option TagStore
run_tags [] s = some s
run_tags (op ∷ ops) s = tag_step op s >>= run_tags ops

-- The same on a relation, without words and bits.
unfoldable pub relation_step : TagOp → (ℕ → ℕ → Bool) → ℕ → ℕ → Bool
relation_step (add_op e t) r f u = (e == f && t == u) || r f u
relation_step (remove_op e t) r f u = not (e == f && t == u) && r f u
relation_step (remove_entity_op e) r f u = not (e == f) && r f u

unfoldable pub run_relation : List TagOp → (ℕ → ℕ → Bool) → ℕ → ℕ → Bool
run_relation [] r = r
run_relation (op ∷ ops) r = run_relation ops (relation_step op r)

-- A store has the tags of a relation.
unfoldable pub Represents : (ℕ → ℕ → Bool) → TagStore → Type 0
Represents r s = (f u : ℕ) → has_tag s f u ≡ r f u

tag_step-Represents :
    (op : TagOp) (r : ℕ → ℕ → Bool) (s : TagStore)
    → Represents r s
    → Returns (Represents (relation_step op r)) (tag_step op s)
unfolding tag_step relation_step Represents IsAdded
tag_step-Represents (add_op e t) r s h = go (add_tag s e t) (add_tag_correct s e t)
  where
    go :
        (x : Option TagStore)
        → Returns (IsAdded s e t) x
        → Returns (λ s'. (f u : ℕ) → has_tag s' f u ≡ ((e == f && t == u) || r f u)) x
    go none x = elim x [ ]
    go (some s') (returns a) = returns (λ f u. a f u ∙ ap (λ b. (e == f && t == u) || b) (h f u))
tag_step-Represents (remove_op e t) r s h =
    returns (λ f u. remove_tag_correct s e t f u ∙ ap (λ b. not (e == f && t == u) && b) (h f u))
tag_step-Represents (remove_entity_op e) r s h =
    returns (λ f u. remove_entity_correct s e f u ∙ ap (λ b. not (e == f) && b) (h f u))

-- Add, Remove and RemoveEntity, in any sequence on a store that has the tags of a relation: none of them
-- panics, and the store has the tags of the relation to which the pairs were added, from which they
-- were removed, and from which all pairs of an entity were removed, in the same sequence.
pub run_tags-Represents :
    (ops : List TagOp) (r : ℕ → ℕ → Bool) (s : TagStore)
    → Represents r s
    → Returns (Represents (run_relation ops r)) (run_tags ops s)
unfolding run_tags run_relation
run_tags-Represents [] r s h = returns h
run_tags-Represents (op ∷ ops) r s h =
    after (tag_step op s) (tag_step-Represents op r s h)
      (run_tags-Represents ops (relation_step op r))
  where
    after :
        (x : Option TagStore)
        → Returns (Represents (relation_step op r)) x
        → ((s' : TagStore)
            → Represents (relation_step op r) s'
            → Returns (Represents (run_relation ops (relation_step op r))) (run_tags ops s'))
        → Returns (Represents (run_relation ops (relation_step op r))) (x >>= run_tags ops)
    after none x next = elim x [ ]
    after (some s') (returns a) next = next s' a
