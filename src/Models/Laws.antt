-- ===== src/Models/Laws.antt =====
-- Grouping loses, repeats and mixes no deployment.
use text.Mathlib.Text.{◌==◌}
use mathlib.Core.List.{append_assoc, append-nil}
use clever_gate.Prelude.{
  text_tests, String, List, [], ◌∷◌, ◌++◌, ◌≡◌, sym, ap, ◌∙◌, lookup, lookup-insert, keep_if, arith,
}
use clever_gate.Types.{Deployment}
use clever_gate.Models.{list_or_new, add_deployment, group_into, aliases_of}

-- The deployments of an alias, in the order of the list.
abbrev pub of_alias : String → List Deployment → List Deployment
of_alias a = keep_if (λ d. d.model_name == a)

deployments_of : String → List (String × List Deployment) → List Deployment
deployments_of a m = list_or_new (lookup a m)

-- What stands under an alias after one more deployment.
deployments_of-add :
    (a : String) (d : Deployment) (m : List (String × List Deployment))
    → deployments_of a (add_deployment d m) ≡ deployments_of a m ++ of_alias a (d ∷ [])
unfolding deployments_of
deployments_of-add a d m =
    let v = list_or_new (lookup d.model_name m) ++ d ∷ [] in
    grind (text_tests, lookup-insert d.model_name a v m, append-nil (list_or_new (lookup a m)))

of_alias-cons :
    (a : String) (d : Deployment) (ds : List Deployment)
    → of_alias a (d ∷ []) ++ of_alias a ds ≡ of_alias a (d ∷ ds)
of_alias-cons a d ds = ground arith

deployments_of-group_into :
    (a : String) (m : List (String × List Deployment)) (ds : List Deployment)
    → deployments_of a (group_into m ds) ≡ deployments_of a m ++ of_alias a ds
unfolding group_into
deployments_of-group_into a m [] = sym (append-nil (deployments_of a m))
deployments_of-group_into a m (d ∷ ds) =
    deployments_of-group_into a (add_deployment d m) ds
    ∙ ap (λ l. l ++ of_alias a ds) (deployments_of-add a d m)
    ∙ append_assoc (deployments_of a m) (of_alias a (d ∷ [])) (of_alias a ds)
    ∙ ap (λ l. deployments_of a m ++ l) (of_alias-cons a d ds)

-- Under each alias stand exactly the deployments of that name, in the order of the list, each as
-- often as it is there.
pub aliases_of-of_alias :
    (a : String) (ds : List Deployment) → list_or_new (lookup a (aliases_of ds)) ≡ of_alias a ds
unfolding aliases_of deployments_of lookup
aliases_of-of_alias a ds = deployments_of-group_into a [] ds
