-- ===== src/Resource/Counting.antt =====
-- How the number of references follows the annotations.
use dingofs_csi.Common.{
  ◌+◌, String, false, [], ◌∷◌, none, Dict, ◌≡◌, refl, ◌↔◌, ◌==◌, ◌&&◌, ==_refl, lookup, insert,
  delete, length, eq_iff, arith, All,
}
use dingofs_csi.Kube.Host.{Host}
use dingofs_csi.Resource.{reference_key, is_reference, get_ref, get_all_ref_keys}

module _ {W : Type 0} (h : Host W) where
  -- No target among the values has this key for its reference: it is not itself a reference.
  abbrev pub IsPlainKey : String → Dict → Type 0
  IsPlainKey k m = All (λ (j, v). ((j == k) && is_reference h j v) ≡ false) m

  pub get_ref-insert :
      (target : String) (m : Dict)
      → lookup (reference_key h target) m ≡ none
      → get_ref h (insert (reference_key h target) target m) ≡ get_ref h m + 1
  unfolding get_ref is_reference lookup insert
  get_ref-insert target [] e = rw ==_refl (omega arith)
  get_ref-insert target ((k, v) ∷ m) e =
      ground (arith, eq_iff k (reference_key h target), get_ref-insert target m)

  pub get_ref-delete_plain :
      (k : String) (m : Dict) → IsPlainKey k m → get_ref h (delete k m) ≡ get_ref h m
  unfolding get_ref delete
  get_ref-delete_plain k [] p = refl
  get_ref-delete_plain k ((j, v) ∷ m) p =
      ground (arith, eq_iff j k, p.0, get_ref-delete_plain k m p.1)

  pub length-get_all_ref_keys : (m : Dict) → length (get_all_ref_keys h m) ≡ get_ref h m
  unfolding get_ref get_all_ref_keys
  length-get_all_ref_keys [] = refl
  length-get_all_ref_keys ((k, v) ∷ m) = ground (arith, length-get_all_ref_keys m)

  pub get_ref-eq-zero_iff :
      (m : Dict) → (get_ref h m ≡ 0) ↔ All (λ (k, v). is_reference h k v ≡ false) m
  unfolding get_ref
  get_ref-eq-zero_iff [] = (λ e. tt, λ a. refl)
  get_ref-eq-zero_iff ((k, v) ∷ m) = ground (arith, get_ref-eq-zero_iff m)
