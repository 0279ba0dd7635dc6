-- ===== src/Tags/Tests.antt =====
-- A tag store with two tags of one entity.
use simulator.Common.{◌≡◌, refl, true, false, some, [], ◌∷◌, ◌>>=◌, Returns}
use simulator.Common.Maps.{lookup, put, delete}
use simulator.Tags.{TagStore, new_tag_store, words_of, grow_words, add_tag, has_bit, has_tag}
use simulator.Tags.Relation.{
  add_op, remove_op, remove_entity_op, Represents, run_relation, run_tags, run_tags-Represents,
}

two_tags :
    (add_tag new_tag_store 7 3 >>= λ s. add_tag s 7 70)
    ≡ some (record { sets = (7, 8 ∷ 64 ∷ []) ∷ [] })
unfolding add_tag words_of grow_words new_tag_store lookup put delete
two_tags = refl

abbrev tagged : TagStore
tagged = record { sets = (7, 8 ∷ 64 ∷ []) ∷ [] }

tag_seventy : (has_tag tagged 7 70 ≡ true) × (has_tag tagged 7 71 ≡ false)
unfolding has_tag has_bit lookup
tag_seventy = (refl, refl)

run_tags-Represents_example :
    Returns
      (Represents
        (run_relation (add_op 7 130 ∷ remove_op 7 3 ∷ remove_entity_op 8 ∷ []) (has_tag tagged)))
      (run_tags (add_op 7 130 ∷ remove_op 7 3 ∷ remove_entity_op 8 ∷ []) tagged)
unfolding Represents
run_tags-Represents_example =
    run_tags-Represents (add_op 7 130 ∷ remove_op 7 3 ∷ remove_entity_op 8 ∷ []) (has_tag tagged)
      tagged (λ f u. refl)
