-- ===== src/Graph/Builder/Gives.antt =====
-- What the parts of `Builder::expand` that only read give: valid references, and no panic.
use openporch.Prelude.{Str, bytes, List, Option, none, some, All, All-append, ◌≡◌, refl}
use openporch.Prelude.Order.{str_ord}
use openporch.Prelude.Result.{ok, err}
use openporch.Ids.{DefinitionId}
use openporch.Ids.Types.{descriptor_ord}
use openporch.Model.{ResourceDefinition}
use openporch.Placeholder.Expr.{definition, driver_account}
use openporch.Placeholder.Json.{Value, string}
use openporch.Placeholder.Run.{Run}
use openporch.Placeholder.Collect.{Found}
use openporch.Placeholder.References.{Valid, Finds, collect_placeholders-Finds}
use openporch.Graph.Builder.Types.{GraphInput, Builder, Build, co_provision_ord, ◌>>=◌}
use openporch.Graph.Builder.Expand.{in_definition, collect_account, found_in}
use openporch.Graph.Builder.Valid.{Ids, IsRefusal, Keeps}

-- A computation that does not panic, with what holds of its value.
abbrev pub Gives : {A : Type 0} → (A → Type 0) → Build A → Type 0
Gives P none = ⊥
Gives P (some (err e)) = IsRefusal e
Gives P (some (ok a)) = P a

pub Gives-bind :
    {A B : Type 0} (P : A → Type 0) (Q : B → Type 0) (m : Build A) (f : A → Build B)
    → Gives P m
    → ((a : A) → P a → Gives Q (f a))
    → Gives Q (m >>= f)
Gives-bind P Q none f h k = absurd h
Gives-bind P Q (some (err e)) f h k = h
Gives-bind P Q (some (ok a)) f h k = k a h

pub Gives-Keeps :
    {A : Type 0} (input : GraphInput) (ids : Ids) (old : Builder) (P : A → Type 0)
    (Q : Builder → Type 0) (m : Build A) (f : A → Build Builder)
    → Gives P m
    → ((a : A) → P a → Keeps input ids old Q (f a))
    → Keeps input ids old Q (m >>= f)
Gives-Keeps input ids old P Q none f h k = absurd h
Gives-Keeps input ids old P Q (some (err e)) f h k = h
Gives-Keeps input ids old P Q (some (ok a)) f h k = k a h

-- With the equation that the value comes from.
pub Gives-self :
    {A : Type 0} (P : A → Type 0) (m : Build A) → Gives P m → Gives (λ a. P a × (m ≡ some (ok a))) m
Gives-self P none h = h
Gives-self P (some (err e)) h = h
Gives-self P (some (ok a)) h = (h, refl)

pub in_definition-Gives :
    (id : DefinitionId) (m : Run (List Found)) → Finds m → Gives (All Valid) (in_definition id m)
in_definition-Gives id none h = h
in_definition-Gives id (some (err e)) h = tt
in_definition-Gives id (some (ok fs)) h = h

pub collect_account-Finds : (account : Option Str) → Finds (collect_account account)
unfolding collect_account
collect_account-Finds none = tt
collect_account-Finds (some acct) =
    collect_placeholders-Finds driver_account (bytes "driver_account") (string acct)

pub found_in-Gives : (def : ResourceDefinition Value) → Gives (All Valid) (found_in def)
unfolding found_in
found_in-Gives def =
    Gives-bind (All Valid) (All Valid) _ _
      (in_definition-Gives def.id _
        (collect_placeholders-Finds definition _ def.driver_inputs.values))
      λ vs a.
        Gives-bind (All Valid) (All Valid) _ _
          (in_definition-Gives def.id _
            (collect_placeholders-Finds definition _ def.driver_inputs.secrets))
          λ ss c.
            Gives-bind (All Valid) (All Valid) _ _
              (in_definition-Gives def.id _ (collect_account-Finds def.driver_account))
              λ as' e. All-append Valid vs _ a (All-append Valid ss as' c e)
