-- ===== src/Sd/Instance/Equal.antt =====
-- reflect.DeepEqual on events: it tells a nil slice from an empty one.
use kit_go.Prelude.{
  ◌≡◌, refl, ◌↔◌, Bool, true, false, ◌&&◌, List, [], ◌∷◌, Option, none, some, arith, String, str_eq,
  str_eq_iff,
}
use kit_go.Go.{Error}
use kit_go.Sd.{Event}

unfoldable pub equal_lists : List String → List String → Bool
equal_lists [] [] = true
equal_lists (x ∷ xs) (y ∷ ys) = str_eq x y && equal_lists xs ys
equal_lists _ _ = false

unfoldable pub equal_instances : Option (List String) → Option (List String) → Bool
equal_instances none none = true
equal_instances (some xs) (some ys) = equal_lists xs ys
equal_instances _ _ = false

unfoldable pub equal_errors : Option Error → Option Error → Bool
equal_errors none none = true
equal_errors (some e) (some f) = str_eq e.message f.message
equal_errors _ _ = false

unfoldable pub deep_equal : Event → Event → Bool
unfolding equal_lists equal_instances equal_errors
deep_equal a b = equal_instances a.instances b.instances && equal_errors a.err b.err

equal_lists_iff : (xs ys : List String) → (equal_lists xs ys ≡ true) ↔ (xs ≡ ys)
unfolding equal_lists
equal_lists_iff [] [] = (λ h. refl, λ h. refl)
equal_lists_iff [] (y ∷ ys) = (λ h. cc, λ h. cc)
equal_lists_iff (x ∷ xs) [] = (λ h. cc, λ h. cc)
equal_lists_iff (x ∷ xs) (y ∷ ys) = (
  λ h. ground (arith, str_eq_iff x y, (equal_lists_iff xs ys).0),
  λ h. ground (arith, str_eq_iff x y, (equal_lists_iff xs ys).1),
)

equal_instances_iff : (a b : Option (List String)) → (equal_instances a b ≡ true) ↔ (a ≡ b)
unfolding equal_instances
equal_instances_iff none none = (λ h. refl, λ h. refl)
equal_instances_iff none (some b) = (λ h. cc, λ h. cc)
equal_instances_iff (some a) none = (λ h. cc, λ h. cc)
equal_instances_iff (some a) (some b) =
    (λ h. cc ((equal_lists_iff a b).0 h), λ h. (equal_lists_iff a b).1 (cc))

equal_errors_iff : (a b : Option Error) → (equal_errors a b ≡ true) ↔ (a ≡ b)
unfolding equal_errors
equal_errors_iff none none = (λ h. refl, λ h. refl)
equal_errors_iff none (some b) = (λ h. cc, λ h. cc)
equal_errors_iff (some a) none = (λ h. cc, λ h. cc)
equal_errors_iff (some a) (some b) = (
  λ h. ground (arith, str_eq_iff a.message b.message),
  λ h. ground (arith, str_eq_iff a.message b.message),
)

pub deep_equal_iff : (a b : Event) → (deep_equal a b ≡ true) ↔ (a ≡ b)
unfolding deep_equal
deep_equal_iff a b = (
  λ h. ground (arith, equal_instances_iff a.instances b.instances, equal_errors_iff a.err b.err),
  λ h. ground (arith, equal_instances_iff a.instances b.instances, equal_errors_iff a.err b.err),
)
