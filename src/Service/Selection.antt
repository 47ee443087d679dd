-- ===== src/Service/Selection.antt =====
-- The Pods that the Services of a replicated DoltDB select.
use doltdb_operator.Prelude.{
  ℕ, Bool, true, false, [], ◌∷◌, Option, none, some, Bytes, codes, str_eq, str_eq→eq, ◌&&◌, ◌≡◌,
  refl, sym, ap, ◌∙◌, arith, if◌then◌else◌,
}
use doltdb_operator.Naming.{pod_name}
use doltdb_operator.Api.DoltDb.{DoltDb}
use doltdb_operator.Service.{
  Texts, put, Exposed, app_label, pod_name_label, role_label, primary_service, reader_service,
}

unfoldable pub look_up : Bytes → Texts → Option Bytes
look_up k [] = none
look_up k ((j, v) ∷ m) = if str_eq k j then some v else look_up k m

abbrev same : Option Bytes → Bytes → Bool
same none v = false
same (some w) v = str_eq w v

-- A selector selects what has each of its labels.
unfoldable pub selects : Texts → Texts → Bool
unfolding look_up
selects [] labels = true
selects ((k, v) ∷ more) labels = same (look_up k labels) v && selects more labels

same→eq : (o : Option Bytes) (v : Bytes) → same o v ≡ true → o ≡ some v
same→eq none v h = cc
same→eq (some w) v h = ap (λ u. some u) (str_eq→eq w v h)

module _ (d : DoltDb) (x : Exposed) (index : ℕ) where
  primary_selector :
      (primary_service d x index).selector
      ≡ (app_label, d.name)
        ∷ (role_label, codes "primary")
        ∷ (pod_name_label, pod_name d.name index)
        ∷ []
  unfolding primary_service put str_eq
  primary_selector = refl

  reader_selector :
      (reader_service d x).selector ≡ (app_label, d.name) ∷ (role_label, codes "standby") ∷ []
  unfolding reader_service put str_eq
  reader_selector = refl

  selected :
      (labels : Texts)
      → selects (primary_service d x index).selector labels ≡ true
      → (same (look_up role_label labels) (codes "primary") ≡ true)
        × (same (look_up pod_name_label labels) (pod_name d.name index) ≡ true)
  unfolding selects
  selected labels h =
      let k = ap (λ sel. selects sel labels) (sym primary_selector) ∙ h in
      (ground arith, ground arith)

  -- Whatever the primary Service of an index selects has the label of a primary and the name of the
  -- Pod with that index, and is not selected by the reader Service.
  pub one_pod_is_chosen :
      (labels : Texts)
      → selects (primary_service d x index).selector labels ≡ true
      → (look_up role_label labels ≡ some (codes "primary"))
        × (look_up pod_name_label labels ≡ some (pod_name d.name index))
        × (selects (reader_service d x).selector labels ≡ false)
  unfolding selects str_eq
  one_pod_is_chosen labels h =
      let (role, pod) = selected labels h in
      let is_primary = same→eq _ _ role in
      (
        is_primary,
        same→eq _ _ pod,
        ap (λ sel. selects sel labels) reader_selector
            ∙ rest (same (look_up app_label labels) d.name) is_primary,
      )
    where
      rest :
          (b : Bool)
          → look_up role_label labels ≡ some (codes "primary")
          → b && (same (look_up role_label labels) (codes "standby") && true) ≡ false
      rest true e = rw e refl
      rest false e = refl
