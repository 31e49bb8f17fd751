-- ===== src/Criteria/Examples.antt =====
-- The definitions and contexts of the tests in crates/core/src/criteria.rs.
use mathlib.Core.List.{Permᴰ}
use openporch.Prelude.{ℕ, ◌<◌, bytes, String, ◌≡◌, ◌↔◌, refl, none, some, List, [], ◌∷◌}
use openporch.Prelude.Result.{ok, err}
use openporch.Prelude.Order.{str_ord}
use openporch.Model.{Criterion, ResourceContext, ResourceDefinition}
use openporch.Criteria.Weight.{criterion_weight, definition_weight}
use openporch.Criteria.WeightLaws.{
  MoreSpecific, criterion_weight-eq_some, criterion_weight-lt_iff, Matches, points,
}
use openporch.Criteria.Select.{select_definition, no_match, ambiguous}
use openporch.Ids.Types.{descriptor_to_string}
use openporch.Criteria.Outcome.{
  select_definition-eq_ok, select_definition-eq_no_match, select_definition-eq_ambiguous,
  select_definition-perm,
}
use openporch.Criteria.Unique.{IsUnique}
use openporch.Criteria.Winners.{AtMost, winners}
use openporch.Prelude.Sort.{sort}
use openporch.Prelude.{All, length, map}

abbrev any_criterion : Criterion
any_criterion = record {
  id = none;
  env_type = none;
  app_id = none;
  env_id = none;
  res_id = none;
  class = none;
}

abbrev in_development : Criterion
in_development = record any_criterion { env_type = some (bytes "development") }

abbrev in_shop : Criterion
in_shop = record any_criterion { app_id = some (bytes "shop") }

abbrev dev_bucket : ResourceContext
dev_bucket = record {
  org = bytes "acme";
  app = bytes "shop";
  env = bytes "dev";
  env_type = bytes "development";
  res = record { ty = bytes "s3"; class = bytes "default"; id = bytes "shared.b" };
}

abbrev definition : String → List Criterion → ResourceDefinition (Unit {0})
definition id criteria = record {
  id = bytes id;
  name = [];
  ty = bytes "s3";
  driver_type = bytes "openporch/echo";
  driver_account = none;
  driver_inputs = record { values = tt; secrets = tt; secret_refs = tt };
  provision = [];
  criteria = criteria;
}

abbrev s3_a : ResourceDefinition (Unit {0})
s3_a = definition "s3-a" (in_shop ∷ in_development ∷ [])

abbrev s3_b : ResourceDefinition (Unit {0})
s3_b = definition "s3-b" (in_development ∷ [])

abbrev s3_c : ResourceDefinition (Unit {0})
s3_c = definition "s3-c" (in_development ∷ [])

abbrev s3_none : ResourceDefinition (Unit {0})
s3_none = definition "s3-none" []

program : Unit {0}
unfolding criterion_weight definition_weight select_definition sort descriptor_to_string
program = tt

weight_of_shop : criterion_weight in_shop dev_bucket ≡ some 2
unfolding program
weight_of_shop = refl

weight_of_development : criterion_weight in_development dev_bucket ≡ some 1
unfolding program
weight_of_development = refl

heaviest_wins : select_definition (s3_b ∷ s3_a ∷ []) dev_bucket ≡ ok s3_a
unfolding program
heaviest_wins = refl

abbrev tied_bucket : List ℕ
tied_bucket = bytes "s3.default#shared.b"

abbrev tied_ids : List (List ℕ)
tied_ids = bytes "s3-b" ∷ bytes "s3-c" ∷ []

tie :
    select_definition (s3_c ∷ s3_none ∷ s3_b ∷ []) dev_bucket
    ≡ err (ambiguous tied_bucket tied_ids 1)
unfolding program
tie = refl

nothing_matches : select_definition (s3_none ∷ []) dev_bucket ≡ err (no_match dev_bucket)
unfolding program
nothing_matches = refl

criterion_weight-eq_some_example :
    (criterion_weight in_shop dev_bucket ≡ some 2)
    ↔ Matches in_shop dev_bucket × (2 ≡ points in_shop)
criterion_weight-eq_some_example = criterion_weight-eq_some in_shop dev_bucket 2

criterion_weight-lt_iff_example : (1 < 2) ↔ MoreSpecific in_shop in_development
criterion_weight-lt_iff_example =
    criterion_weight-lt_iff in_shop in_development dev_bucket 2 1 weight_of_shop
      weight_of_development

select_definition-eq_ok_example :
    (select_definition (s3_b ∷ s3_a ∷ []) dev_bucket ≡ ok s3_a)
    ↔ ((w : ℕ) × IsUnique (λ x. definition_weight x dev_bucket) (s3_b ∷ s3_a ∷ []) s3_a w)
select_definition-eq_ok_example = select_definition-eq_ok (s3_b ∷ s3_a ∷ []) dev_bucket s3_a

select_definition-eq_no_match_example :
    (select_definition (s3_none ∷ []) dev_bucket ≡ err (no_match dev_bucket))
    ↔ All (λ x. definition_weight x dev_bucket ≡ none) (s3_none ∷ []) × (dev_bucket ≡ dev_bucket)
select_definition-eq_no_match_example =
    select_definition-eq_no_match (s3_none ∷ []) dev_bucket dev_bucket

select_definition-eq_ambiguous_example :
    (select_definition (s3_c ∷ s3_b ∷ []) dev_bucket ≡ err (ambiguous tied_bucket tied_ids 1))
    ↔ (1 < length (winners (λ x. definition_weight x dev_bucket) 1 (s3_c ∷ s3_b ∷ [])))
      × All (λ x. AtMost 1 (definition_weight x dev_bucket)) (s3_c ∷ s3_b ∷ [])
      × (tied_ids
          ≡ sort (
              map (λ x. x.id) (winners (λ x. definition_weight x dev_bucket) 1 (s3_c ∷ s3_b ∷ []))))
      × (tied_bucket ≡ descriptor_to_string dev_bucket.res)
select_definition-eq_ambiguous_example =
    select_definition-eq_ambiguous (s3_c ∷ s3_b ∷ []) dev_bucket tied_bucket tied_ids 1

select_definition-perm_example :
    select_definition (s3_b ∷ s3_a ∷ []) dev_bucket
    ≡ select_definition (s3_a ∷ s3_b ∷ []) dev_bucket
select_definition-perm_example =
    select_definition-perm (s3_b ∷ s3_a ∷ []) (s3_a ∷ s3_b ∷ []) dev_bucket (Permᴰ.swap refl refl)
