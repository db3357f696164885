-- ===== src/Native/Values.antt =====
-- The flat map of values, and the node selectors that are written into it and read back:
-- `setValue`, `setSelectorValues`, `setListValues`, `mergeValues`, `escapeValueKey`,
-- `selectorValues`, `selectorForObject`, `valueOrDefault` of internal/controller/native_runner.go.
pub mod Keys
use magma_operator.Base.{
  ℕ, suc, String, ◌<>◌, ◌==◌, ◌||◌, none, some, List, [], ◌∷◌, Dict, entry, insert, copy, is_empty,
  or_default, if◌then◌else◌, contains, cut_prefix, replace_all, replace_pairs,
}
use magma_operator.Base.Int.{show_ℕ}
use magma_operator.Agw.Names.{agw_node_prep_name}

unfoldable pub set_value : Dict String → String → String → Dict String
set_value values key value = if is_empty value then values else insert key value values

unfoldable pub escape_value_key : String → String
escape_value_key = replace_pairs (("\\", "\\\\") ∷ (".", "\\.") ∷ [])

-- The two replacements of `selectorValues`
unfoldable pub unescape_value_key : String → String
unescape_value_key key = replace_all (replace_all key "\\\\." ".") "\\." "."

unfoldable pub set_selector_values : Dict String → String → Dict String → Dict String
set_selector_values values prefix [] = values
set_selector_values values prefix ((key, value) ∷ selector) =
    set_selector_values (insert (prefix <> "." <> escape_value_key key) value values) prefix
      selector

set_list_values_from : ℕ → Dict String → String → List String → Dict String
set_list_values_from index values prefix [] = values
set_list_values_from index values prefix (e ∷ es) =
    set_list_values_from (suc index)
      (if is_empty e then values else insert (prefix <> "[" <> show_ℕ index <> "]") e values) prefix
      es

unfoldable pub set_list_values : Dict String → String → List String → Dict String
unfolding set_list_values_from
set_list_values = set_list_values_from 0

unfoldable pub merge_values : Dict String → Dict String → Dict String
merge_values values override = copy values override

unfoldable pub selector_values : Dict String → String → Dict String
selector_values [] prefix = []
selector_values ((key, value) ∷ values) prefix =
    let rest = selector_values values prefix in
    elim (cut_prefix key prefix) [
      | none ↦ rest
      | some selector_key ↦ insert (unescape_value_key selector_key) value rest
    ]

unfoldable pub selector_for_object : String → Dict String → Dict String
selector_for_object name values =
    if contains name "ueransim" || contains name "iperf3"
    then selector_values values "simulator.nodeSelector."
    else if name == agw_node_prep_name
    then selector_values values "nodePrep.nodeSelector."
    else selector_values values "nodeSelector."

unfoldable pub value_or_default : Dict String → String → String → String
value_or_default values key fallback = or_default (entry key values) fallback
