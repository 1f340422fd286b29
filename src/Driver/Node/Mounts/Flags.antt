-- ===== src/Driver/Node/Mounts/Flags.antt =====
-- The options of a mount.
use mathlib.Core.List.{append_assoc, append-nil}
use osc_bsu_csi_driver.Prelude.{
  String, ◌≡◌, refl, sym, ◌∙◌, false, ◌||◌, List, [], ◌∷◌, ◌++◌, arith, eq_iff, Bool-cases, inl,
  inr,
}
use osc_bsu_csi_driver.Driver.Node.Mounts.{has_mount_option, add_mount_flags}

-- No option comes again.
pub Distinct : List String → Type 0
Distinct [] = Unit
Distinct (o ∷ rest) = (has_mount_option rest o ≡ false) × Distinct rest

has_mount_option-append :
    (xs ys : List String) (o : String)
    → has_mount_option (xs ++ ys) o ≡ (has_mount_option xs o || has_mount_option ys o)
unfolding has_mount_option
has_mount_option-append [] ys o = refl
has_mount_option-append (x ∷ xs) ys o = ground (arith, has_mount_option-append xs ys o)

Distinct-append :
    (xs : List String) (f : String)
    → Distinct xs
    → has_mount_option xs f ≡ false
    → Distinct (xs ++ (f ∷ []))
unfolding Distinct has_mount_option
Distinct-append [] f d h = (refl, tt)
Distinct-append (x ∷ xs) f d h = (
  ground (arith, has_mount_option-append xs (f ∷ []) x, d.0, eq_iff x f, eq_iff f x),
  Distinct-append xs f d.1 (ground arith),
)

-- The flags of a request are added to the options: those stay first and in their order, an option is
-- there afterwards exactly if it was one before or is one of the flags, and options that were all
-- distinct stay so, even where the flags are not.
pub add_mount_flags-has_mount_option :
    (options flags : List String)
    → ((added : List String) × (add_mount_flags options flags ≡ options ++ added))
      × ((o : String)
          → has_mount_option (add_mount_flags options flags) o
            ≡ (has_mount_option options o || has_mount_option flags o))
      × (Distinct options → Distinct (add_mount_flags options flags))
unfolding add_mount_flags has_mount_option
add_mount_flags-has_mount_option options [] =
    (([], sym (append-nil options)), (λ o. ground arith), λ d. d)
add_mount_flags-has_mount_option options (f ∷ rest) =
    elim (Bool-cases (has_mount_option options f)) [
      | inl there ↦
          let (prefix, union, distinct) = add_mount_flags-has_mount_option options rest in
          rw there (prefix, (λ o. ground (arith, union o, eq_iff f o)), distinct)
      | inr new ↦
          let ((added, prefix), union, distinct) =
            add_mount_flags-has_mount_option (options ++ (f ∷ [])) rest in
          rw new (
            (f ∷ added, prefix ∙ append_assoc options (f ∷ []) added),
            (λ o. ground (arith, union o, has_mount_option-append options (f ∷ []) o)),
            λ d. distinct (Distinct-append options f d new),
          )
    ]
